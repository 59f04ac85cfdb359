-- ===== src/Base/Table/Keys.antt =====
-- The lemmas on tables that say which rows a key finds, and how many.
use Prim.Native.Nat.{◌≤◌}
use mathlib.Core.Path.{◌≡◌, refl, sym, ◌∙◌}
use mathlib.Core.Logic.{inl, inr}
use mathlib.Core.Bool.{Bool, true, false, false≢true}
use mathlib.Core.Option.{none, some}
use mathlib.Core.List.{List, [], ◌∷◌, ◌++◌}
use native.Mathlib.Omega.{arith}
use research_ops_automation.Base.Tests.{Bool-cases}
use research_ops_automation.Base.Table.{
  update_where, find, exists, remove_where, count_where, select, All, Some,
}
use research_ops_automation.Base.Table.Laws.{All-find, found-exists, All-map}

module _ {ℓ} {A : Type ℓ} where
  -- an update under which no row of this table comes to be selected
  pub count-update_where-le-All :
      (q p : A → Bool) (f : A → A) (xs : List A)
      → All (λ x. p x ≡ true → q (f x) ≡ true → q x ≡ true) xs
      → count_where q (update_where p f xs) ≤ count_where q xs
  unfolding count_where update_where
  count-update_where-le-All q p f [] keep = omega arith
  count-update_where-le-All q p f (x ∷ xs) keep =
      ground (arith, keep.0, count-update_where-le-All q p f xs keep.1)

  pub exists-find :
      (p : A → Bool) (xs : List A) → exists p xs ≡ true → (x : A) × (find p xs ≡ some x)
  unfolding exists find
  exists-find p [] h = cc
  exists-find p (x ∷ xs) h = elim (Bool-cases (p x)) [
    | inl t ↦ (x, rw t)
    | inr f ↦ let (y, e) = exists-find p xs (rw f at h) in (y, rw f e)
  ]

  none_selected :
      (p : A → Bool) (y : A) (xs : List A) → count_where p xs ≤ 0 → All (λ x. p x ≡ true → x ≡ y) xs
  unfolding count_where
  none_selected p y [] c = tt
  none_selected p y (x ∷ xs) c = (λ t. ground arith, none_selected p y xs (ground arith))

  -- where a query selects one row at most, it is the row that is found
  pub find_unique :
      (p : A → Bool) (xs : List A) (y : A)
      → count_where p xs ≤ 1
      → find p xs ≡ some y
      → All (λ x. p x ≡ true → x ≡ y) xs
  unfolding count_where find
  find_unique p [] y c e = tt
  find_unique p (x ∷ xs) y c e = elim (Bool-cases (p x)) [
    | inl t ↦ (λ _. ground (arith, t), none_selected p y xs (ground (arith, t)))
    | inr f ↦ (λ t. ground (arith, f), find_unique p xs y (ground (arith, f)) (rw f at e))
  ]

  -- where a query selects one row at most, a row of the table that it selects is that row
  pub found_unique :
      (p q : A → Bool) (xs : List A) (b : A)
      → count_where q xs ≤ 1
      → find p xs ≡ some b
      → q b ≡ true
      → All (λ x. q x ≡ true → x ≡ b) xs
  found_unique p q xs b c e t =
      let (y, f) = exists-find q xs (found-exists p q xs e t) in
      let all = find_unique q xs y c f in
      let same = All-find (λ x. q x ≡ true → x ≡ y) p xs all e t in
      All-map xs (λ x named u. named u ∙ sym same) all

  -- a narrower query that selects some row selects the one that the wider query finds
  pub exists_unique :
      (p q : A → Bool) (xs : List A) (y : A)
      → All (λ x. p x ≡ true → x ≡ y) xs
      → ((x : A) → q x ≡ true → p x ≡ true)
      → exists q xs ≡ true
      → q y ≡ true
  unfolding exists
  exists_unique p q [] y all narrow h = cc
  exists_unique p q (x ∷ xs) y all narrow h = elim (Bool-cases (q x)) [
    | inl t ↦ rw (all.0 (narrow x t)) at t
    | inr f ↦ exists_unique p q xs y all.1 narrow (rw f at h)
  ]

  pub All-always {κ} : (P : A → Type κ) (xs : List A) → ((x : A) → P x) → All P xs
  All-always P [] h = tt
  All-always P (x ∷ xs) h = (h x, All-always P xs h)

  -- an update that keeps, on the rows of this table, the columns that a query reads
  pub exists-update_where-All :
      (q p : A → Bool) (f : A → A) (xs : List A)
      → All (λ x. p x ≡ true → q (f x) ≡ q x) xs
      → exists q (update_where p f xs) ≡ exists q xs
  unfolding exists update_where
  exists-update_where-All q p f [] keep = refl
  exists-update_where-All q p f (x ∷ xs) keep =
      ground (arith, keep.0, exists-update_where-All q p f xs keep.1)

  -- a query narrower than one that selects nothing
  pub count_narrow :
      (q p : A → Bool) (xs : List A)
      → ((x : A) → q x ≡ true → p x ≡ true)
      → exists p xs ≡ false
      → count_where q xs ≡ 0
  unfolding exists count_where
  count_narrow q p [] narrow h = refl
  count_narrow q p (x ∷ xs) narrow h = ground (arith, narrow x, count_narrow q p xs narrow)

  -- what holds of the rows that a query selects
  pub All-select {κ} :
      (P : A → Type κ) (p : A → Bool) (xs : List A)
      → All P (select p xs)
      → All (λ x. p x ≡ true → P x) xs
  unfolding select
  All-select P p [] h = tt
  All-select P p (x ∷ xs) h = elim (Bool-cases (p x)) [
    | inl t ↦ let (a, b) = rw t at h in (λ _. a, All-select P p xs b)
    | inr f ↦ (λ t. absurd (false≢true (sym f ∙ t)), All-select P p xs (rw f at h))
  ]

  pub All-parts {κ} : (P : A → Type κ) (xs ys : List A) → All P (xs ++ ys) → All P xs × All P ys
  All-parts P [] ys h = (tt, h)
  All-parts P (x ∷ xs) ys h = let (a, b) = All-parts P xs ys h.1 in ((h.0, a), b)

  pub find-none : (p : A → Bool) (xs : List A) → exists p xs ≡ false → find p xs ≡ none
  unfolding exists find
  find-none p [] h = refl
  find-none p (x ∷ xs) h = ground (arith, find-none p xs)

  -- no row that a DELETE leaves is one that it deletes
  pub All-removed : (p : A → Bool) (xs : List A) → All (λ x. p x ≡ false) (remove_where p xs)
  unfolding remove_where
  All-removed p [] = tt
  All-removed p (x ∷ xs) = elim (Bool-cases (p x)) [
    | inl t ↦ rw t (All-removed p xs)
    | inr f ↦ rw f (f, All-removed p xs)
  ]

  pub exists-Some :
      (p : A → Bool) (P : A → Type 0) (xs : List A)
      → ((x : A) → p x ≡ true → P x)
      → exists p xs ≡ true
      → Some P xs
  unfolding exists
  exists-Some p P [] f h = cc
  exists-Some p P (x ∷ xs) f h = elim (Bool-cases (p x)) [
    | inl t ↦ inl (f x t)
    | inr n ↦ inr (exists-Some p P xs f (rw n at h))
  ]
