-- ===== src/Base/Json.antt =====
-- JSON values as json.loads returns them. Object members stand in the order of the text.
use Prim.Native.Nat.{ℕ, suc}
use Prim.Native.String.{String}
use mathlib.Core.Bool.{Bool, true, false, not, ◌&&◌}
use mathlib.Core.Option.{Option, none, some}
use mathlib.Core.List.{List, [], ◌∷◌}
use text.Mathlib.Text.{◌==◌}
use research_ops_automation.Base.Tests.{if◌then◌else◌, eqb, ltb}

mutual
  pub data Json : Type 0 where
    null : Json
    bool : Bool → Json
    num : ℕ → Json
    str : String → Json
    arr : Items → Json
    obj : Fields → Json

  pub data Items : Type 0 where
    nil : Items
    cons : Json → Items → Items

  pub data Fields : Type 0 where
    end : Fields
    field : String → Json → Fields → Fields

-- dict.get(key), with `none` where the key is missing
unfoldable pub member : String → Fields → Option Json
member k end = none
member k (field j v fs) = if j == k then some v else member k fs

-- value.get(key) where the value is an object
unfoldable pub get : String → Json → Option Json
unfolding member
get k (obj fs) = member k fs
get k _ = none

unfoldable pub items : Items → List Json
items nil = []
items (cons x xs) = x ∷ items xs

unfoldable pub of_list : List Json → Items
of_list [] = nil
of_list (x ∷ xs) = cons x (of_list xs)

-- the elements of an array, and nothing of any other value
unfoldable pub elements : Option Json → List Json
unfolding items
elements (some (arr xs)) = items xs
elements _ = []

unfoldable pub texts : List Json → List String
texts [] = []
texts (str s ∷ xs) = s ∷ texts xs
texts (_ ∷ xs) = texts xs

unfoldable pub keys : Fields → List String
keys end = []
keys (field k v fs) = k ∷ keys fs

unfoldable pub field_count : Fields → ℕ
field_count end = 0
field_count (field k v fs) = suc (field_count fs)

-- dict(a, **b) for a literal `a` whose keys `b` does not repeat
unfoldable pub join_fields : Fields → Fields → Fields
join_fields end gs = gs
join_fields (field k v fs) gs = field k v (join_fields fs gs)

-- Python's True and False are the numbers 1 and 0.
abbrev flag_value : Bool → ℕ
flag_value true = 1
flag_value false = 0

-- Python's == on decoded JSON, where the order of an object's members does not count.
unfoldable mutual
  unfolding member field_count

  pub same_json : Json → Json → Bool
  same_json null null = true
  same_json (bool a) (bool b) = eqb (flag_value a) (flag_value b)
  same_json (bool a) (num n) = eqb (flag_value a) n
  same_json (num n) (bool b) = eqb n (flag_value b)
  same_json (num m) (num n) = eqb m n
  same_json (str s) (str t) = s == t
  same_json (arr xs) (arr ys) = same_items xs ys
  same_json (obj fs) (obj gs) = eqb (field_count fs) (field_count gs) && same_fields fs gs
  same_json _ _ = false

  pub same_items : Items → Items → Bool
  same_items nil nil = true
  same_items (cons x xs) (cons y ys) = same_json x y && same_items xs ys
  same_items _ _ = false

  pub same_fields : Fields → Fields → Bool
  same_fields end gs = true
  same_fields (field k v fs) gs =
      elim (member k gs) [ none ↦ false | some w ↦ same_json v w ] && same_fields fs gs

-- Python's truth of a decoded value
unfoldable pub truth : Option Json → Bool
truth none = false
truth (some null) = false
truth (some (bool b)) = b
truth (some (num n)) = ltb 0 n
truth (some (str s)) = not (s == "")
truth (some (arr nil)) = false
truth (some (obj end)) = false
truth (some _) = true

-- d[k] = v
unfoldable pub set_field : String → Json → Fields → Fields
set_field k v end = field k v end
set_field k v (field j w fs) =
    let rest = set_field k v fs in if j == k then field j v fs else field j w rest

-- dict(fs, **gs)
unfoldable pub merge_fields : Fields → Fields → Fields
unfolding set_field
merge_fields fs end = fs
merge_fields fs (field k v gs) = merge_fields (set_field k v fs) gs
