-- ===== src/Base/Table/Laws.antt =====
-- What UPDATE, DELETE and INSERT leave of a table, and what a query finds in it.
use Prim.Native.Nat.{◌+◌, ◌≤◌}
use mathlib.Core.Path.{◌≡◌, refl}
use mathlib.Core.Logic.{inl, inr}
use mathlib.Core.Bool.{Bool, true, false, ◌||◌}
use mathlib.Core.Option
use mathlib.Core.Option.{Option, none, some}
use mathlib.Core.List.{List, [], ◌∷◌, ◌++◌, map}
use native.Mathlib.Omega.{arith}
use research_ops_automation.Base.Tests.{if◌then◌else◌, Bool-cases}
use research_ops_automation.Base.Table.{update_where, find, exists, remove_where, count_where, All}

abbrev pub changed {ℓ} : {A : Type ℓ} → (A → Bool) → (A → A) → A → A
changed p f x = if p x then f x else x

module _ {ℓ} {A : Type ℓ} where
  -- an update that keeps a column keeps the column of the table
  pub map-update_where {κ} :
      {B : Type κ} (g : A → B) (p : A → Bool) (f : A → A) (xs : List A)
      → ((x : A) → g (f x) ≡ g x)
      → map g (update_where p f xs) ≡ map g xs
  unfolding update_where
  map-update_where g p f [] keep = refl
  map-update_where g p f (x ∷ xs) keep = ground (arith, keep x, map-update_where g p f xs keep)

  pub map-remove_where {κ} :
      {B : Type κ} (g : A → B) (p : A → Bool) (q : B → Bool) (xs : List A)
      → ((x : A) → p x ≡ q (g x))
      → map g (remove_where p xs) ≡ remove_where q (map g xs)
  unfolding remove_where
  map-remove_where g p q [] same = refl
  map-remove_where g p q (x ∷ xs) same = ground (arith, same x, map-remove_where g p q xs same)

  pub find-update_where :
      (q p : A → Bool) (f : A → A) (xs : List A)
      → ((x : A) → q (f x) ≡ q x)
      → find q (update_where p f xs) ≡ Option.map (changed p f) (find q xs)
  unfolding find update_where
  find-update_where q p f [] keep = refl
  find-update_where q p f (x ∷ xs) keep = ground (arith, keep x, find-update_where q p f xs keep)

  pub find_holds : (p : A → Bool) (xs : List A) {x : A} → find p xs ≡ some x → p x ≡ true
  unfolding find
  find_holds p [] h = cc
  find_holds p (y ∷ ys) {x} h = elim (Bool-cases (p y)) [
    | inl e ↦ ground (arith, e)
    | inr e ↦ find_holds p ys (rw e at h)
  ]

  pub find-exists : (p : A → Bool) (xs : List A) {x : A} → find p xs ≡ some x → exists p xs ≡ true
  unfolding find exists
  find-exists p [] h = cc
  find-exists p (y ∷ ys) {x} h = ground (arith, find-exists p ys {x = x})

  -- a row that is found is in the table
  pub found-exists :
      (p q : A → Bool) (xs : List A) {x : A} → find p xs ≡ some x → q x ≡ true → exists q xs ≡ true
  unfolding find exists
  found-exists p q [] h t = cc
  found-exists p q (y ∷ ys) {x} h t = elim (Bool-cases (p y)) [
    | inl e ↦ ground (arith, e)
    | inr e ↦ ground (arith, found-exists p q ys (rw e at h) t)
  ]

  pub find-none-exists : (p : A → Bool) (xs : List A) → find p xs ≡ none → exists p xs ≡ false
  unfolding find exists
  find-none-exists p [] h = refl
  find-none-exists p (y ∷ ys) h = ground (arith, find-none-exists p ys)

  pub find-append :
      (p : A → Bool) (xs : List A) (y : A)
      → find p (xs ++ y ∷ []) ≡ (if exists p xs then find p xs else if p y then some y else none)
  unfolding find exists
  find-append p [] y = refl
  find-append p (x ∷ xs) y = ground (arith, find-append p xs y)

  pub exists-append :
      (p : A → Bool) (xs : List A) (y : A) → exists p (xs ++ y ∷ []) ≡ (exists p xs || p y)
  unfolding exists
  exists-append p [] y = ground arith
  exists-append p (x ∷ xs) y = ground (arith, exists-append p xs y)

  pub exists-map {κ} :
      {B : Type κ} (g : A → B) (p : A → Bool) (q : B → Bool) (xs : List A)
      → ((x : A) → p x ≡ q (g x))
      → exists q (map g xs) ≡ exists p xs
  unfolding exists
  exists-map g p q [] same = refl
  exists-map g p q (x ∷ xs) same = ground (arith, same x, exists-map g p q xs same)

  -- a DELETE that finds no row
  pub remove_where_none :
      (p : A → Bool) (xs : List A) → exists p xs ≡ false → remove_where p xs ≡ xs
  unfolding exists remove_where
  remove_where_none p [] h = refl
  remove_where_none p (x ∷ xs) h = ground (arith, remove_where_none p xs)

  -- an update that keeps the columns that a query reads
  pub exists-update_where :
      (q p : A → Bool) (f : A → A) (xs : List A)
      → ((x : A) → q (f x) ≡ q x)
      → exists q (update_where p f xs) ≡ exists q xs
  unfolding exists update_where
  exists-update_where q p f [] keep = refl
  exists-update_where q p f (x ∷ xs) keep =
      ground (arith, keep x, exists-update_where q p f xs keep)

  -- a row that the update turns into one that the query selects
  pub exists-update_where_of :
      (q p : A → Bool) (f : A → A) (xs : List A)
      → ((x : A) → p x ≡ true → q (f x) ≡ true)
      → exists p xs ≡ true
      → exists q (update_where p f xs) ≡ true
  unfolding exists update_where
  exists-update_where_of q p f [] makes h = cc
  exists-update_where_of q p f (x ∷ xs) makes h =
      ground (arith, makes x, exists-update_where_of q p f xs makes)

  pub count-append :
      (p : A → Bool) (xs : List A) (y : A)
      → count_where p (xs ++ y ∷ []) ≡ count_where p xs + (if p y then 1 else 0)
  unfolding count_where
  count-append p [] y = ground arith
  count-append p (x ∷ xs) y = ground (arith, count-append p xs y)

  -- an update under which no row comes to be selected
  pub count-update_where-le :
      (q p : A → Bool) (f : A → A) (xs : List A)
      → ((x : A) → p x ≡ true → q (f x) ≡ true → q x ≡ true)
      → count_where q (update_where p f xs) ≤ count_where q xs
  unfolding count_where update_where
  count-update_where-le q p f [] keep = omega arith
  count-update_where-le q p f (x ∷ xs) keep =
      ground (arith, keep x, count-update_where-le q p f xs keep)

  pub exists-count : (p : A → Bool) (xs : List A) → exists p xs ≡ false → count_where p xs ≡ 0
  unfolding exists count_where
  exists-count p [] h = refl
  exists-count p (x ∷ xs) h = ground (arith, exists-count p xs)

  module _ {κ} (P : A → Type κ) where
    pub All-append : (xs : List A) (y : A) → All P xs → P y → All P (xs ++ y ∷ [])
    All-append [] y h hy = (hy, tt)
    All-append (x ∷ xs) y h hy = (h.0, All-append xs y h.1 hy)

    pub All-find : (p : A → Bool) (xs : List A) {x : A} → All P xs → find p xs ≡ some x → P x
    unfolding find
    All-find p [] h e = cc
    All-find p (y ∷ ys) {x} h e = elim (Bool-cases (p y)) [
      | inl t ↦ rw (← some_inj y x (rw t at e)) h.0
      | inr f ↦ All-find p ys h.1 (rw f at e)
    ]
      where
        some_inj : (a b : A) → some a ≡ some b → a ≡ b
        some_inj a b q = cc

  pub All-map {κ μ} :
      {P : A → Type κ} {Q : A → Type μ} (xs : List A) → ((x : A) → P x → Q x) → All P xs → All Q xs
  All-map [] f h = tt
  All-map (x ∷ xs) f h = (f x h.0, All-map xs f h.1)

  pub All-update_where {κ} :
      (P : A → Type κ) (p : A → Bool) (f : A → A) (xs : List A)
      → ((x : A) → p x ≡ true → P x → P (f x))
      → All P xs
      → All P (update_where p f xs)
  unfolding update_where
  All-update_where P p f [] keep h = tt
  All-update_where P p f (x ∷ xs) keep h = (split (p x) refl, All-update_where P p f xs keep h.1)
    where
      split : (b : Bool) → p x ≡ b → P (if b then f x else x)
      split true e = keep x e h.0
      split false e = h.0

  pub All-remove_where {κ} :
      (P : A → Type κ) (p : A → Bool) (xs : List A) → All P xs → All P (remove_where p xs)
  unfolding remove_where
  All-remove_where P p [] h = tt
  All-remove_where P p (x ∷ xs) h = split (p x) (All-remove_where P p xs h.1)
    where
      split :
          (b : Bool)
          → All P (remove_where p xs)
          → All P (if b then remove_where p xs else x ∷ remove_where p xs)
      split true rest = rest
      split false rest = (h.0, rest)
