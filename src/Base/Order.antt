-- ===== src/Base/Order.antt =====
-- The order of texts by their bytes: what str_lt compares.
use Prim.Native.Nat.{ℕ, compare as compare_ℕ, Ordering}
use Prim.Native.String
use Prim.Native.String.{String, then}
use Prim.Native.String.compare
use Prim.Native.Char.{code}
use mathlib.Core.Path.{◌≡◌, refl, sym, ◌∙◌}
use mathlib.Core.Bool.{Bool, true, false, ◌&&◌, ◌||◌, false≢true}
use native.Mathlib.Omega.{arith}
use research_ops_automation.Base.Tests.{str_lt, ltb, eqb}

str_lt-cons :
    (c d : _) (s t : String)
    → str_lt (String.◌∷◌ c s) (String.◌∷◌ d t)
      ≡ (ltb (code c) (code d) || (eqb (code c) (code d) && str_lt s t))
str_lt-cons c d s t = rw (str_lt, compare.cons-cons c d s t) (either (compare_ℕ (code c) (code d)))
  where
    either :
        (o : Ordering)
        → (elim (then o (String.compare s t)) [ Ordering.lt ↦ true | _ ↦ false ]) ≡ (
            (elim o [ Ordering.lt ↦ true | _ ↦ false ])
            || ((elim o [ Ordering.eq ↦ true | _ ↦ false ]) && str_lt s t))
    either Ordering.lt = refl
    either Ordering.eq = refl
    either Ordering.gt = refl

not_before_nil : (s : String) → str_lt s String.[] ≡ false
not_before_nil String.[] = refl
not_before_nil (String.◌∷◌ c s) = rw (str_lt, compare.cons-nil c s) refl

nil_before : (c : _) (s : String) → str_lt String.[] (String.◌∷◌ c s) ≡ true
nil_before c s = rw (str_lt, compare.nil-cons c s) refl

-- where b is not before a, and c is not before b, c is not before a
pub str_lt_trans : (a b c : String) → str_lt b a ≡ false → str_lt c b ≡ false → str_lt c a ≡ false
str_lt_trans String.[] b c h k = not_before_nil c
str_lt_trans (String.◌∷◌ x a) String.[] c h k = absurd (false≢true (sym h ∙ nil_before x a))
str_lt_trans (String.◌∷◌ x a) (String.◌∷◌ y b) String.[] h k =
    absurd (false≢true (sym k ∙ nil_before y b))
str_lt_trans (String.◌∷◌ x a) (String.◌∷◌ y b) (String.◌∷◌ z c) h k =
    str_lt-cons z x c a
    ∙ joined (code x) (code y) (code z) (str_lt b a) (str_lt c b) (str_lt c a)
        (sym (str_lt-cons y x b a) ∙ h) (sym (str_lt-cons z y c b) ∙ k) (str_lt_trans a b c)
  where
    joined :
        (l m n : ℕ) (p q r : Bool)
        → (ltb m l || (eqb m l && p)) ≡ false
        → (ltb n m || (eqb n m && q)) ≡ false
        → (p ≡ false → q ≡ false → r ≡ false)
        → (ltb n l || (eqb n l && r)) ≡ false
    joined l m n p q r u v w = ground arith

-- of two texts, one at most is before the other
pub str_lt_asym : (a b : String) → str_lt a b ≡ true → str_lt b a ≡ false
str_lt_asym a String.[] h = absurd (false≢true (sym (not_before_nil a) ∙ h))
str_lt_asym String.[] (String.◌∷◌ y b) h = not_before_nil (String.◌∷◌ y b)
str_lt_asym (String.◌∷◌ x a) (String.◌∷◌ y b) h =
    str_lt-cons y x b a
    ∙ joined (code x) (code y) (str_lt a b) (str_lt b a) (sym (str_lt-cons x y a b) ∙ h)
        (str_lt_asym a b)
  where
    joined :
        (l m : ℕ) (p q : Bool)
        → (ltb l m || (eqb l m && p)) ≡ true
        → (p ≡ true → q ≡ false)
        → (ltb m l || (eqb m l && q)) ≡ false
    joined l m p q u w = ground arith
