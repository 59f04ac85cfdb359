-- ===== src/Scheduler/Search.antt =====
-- A search in order finds the first or the last of the times that it looks for.
use research_ops_automation.Base.{
  Some, ℕ, Bool, true, false, ◌||◌, ◌≤◌, ◌≡◌, refl, eqb, Option, none, some, List, [], ◌∷◌, All,
  All-map, exists, inl, inr, arith, Bool-cases,
}
use research_ops_automation.Scheduler.Cron.{among}
use research_ops_automation.Scheduler.Occurrence.{
  search_list, or_later, ahead, insert_value, sorted_values,
}

-- the time s is at least as good as t
abbrev pub Beats : Bool → ℕ → ℕ → Type 0
Beats true s t = t ≤ s
Beats false s t = s ≤ t

-- an answer is the best of the times with a property, or there is none
abbrev pub IsBest : Bool → (ℕ → Type 0) → Option ℕ → Type 0
IsBest latest P none = (t : ℕ) → P t → ⊥
IsBest latest P (some s) = P s × ((t : ℕ) → P t → Beats latest s t)

-- each element stands so to every later one
abbrev pub Pairs : {A : Type 0} → (A → A → Type 0) → List A → Type 0
Pairs C [] = Unit
Pairs C (x ∷ xs) = All (C x) xs × Pairs C xs

pub Pairs-map :
    {A : Type 0} {C D : A → A → Type 0} (xs : List A)
    → ((x y : A) → C x y → D x y)
    → Pairs C xs
    → Pairs D xs
Pairs-map [] f h = tt
Pairs-map (x ∷ xs) f h = (All-map xs (f x) h.0, Pairs-map xs f h.1)

pub Some-map :
    {A : Type 0} {P Q : A → Type 0} (xs : List A) → ((x : A) → P x → Q x) → Some P xs → Some Q xs
Some-map [] f p = elim p [ ]
Some-map (x ∷ xs) f (inl p) = inl (f x p)
Some-map (x ∷ xs) f (inr p) = inr (Some-map xs f p)

Beats-refl : (latest : Bool) (s : ℕ) → Beats latest s s
Beats-refl true s = omega arith
Beats-refl false s = omega arith

module _ {A : Type 0} (latest : Bool) (P : A → ℕ → Type 0) where
  -- every time of an element beats every time of a later one
  abbrev pub Before : A → A → Type 0
  Before x y = (s t : ℕ) → P x s → P y t → Beats latest s t

  All-beaten :
      (x : A) (xs : List A) (s t : ℕ)
      → All (Before x) xs
      → P x s
      → Some (λ y. P y t) xs
      → Beats latest s t
  All-beaten x [] s t before p q = elim q [ ]
  All-beaten x (y ∷ ys) s t before p (inl q) = before.0 s t p q
  All-beaten x (y ∷ ys) s t before p (inr q) = All-beaten x ys s t before.1 p q

  pub search_list-IsBest :
      (f : A → Option ℕ) (xs : List A)
      → All (λ x. IsBest latest (P x) (f x)) xs
      → Pairs Before xs
      → IsBest latest (λ t. Some (λ x. P x t) xs) (search_list f xs)
  unfolding search_list
  search_list-IsBest f [] best before = λ t p. p
  search_list-IsBest f (x ∷ xs) best before =
      split (f x) (search_list f xs) best.0 (search_list-IsBest f xs best.1 before.1)
    where
      split :
          (o rest : Option ℕ)
          → IsBest latest (P x) o
          → IsBest latest (λ t. Some (λ y. P y t) xs) rest
          → IsBest latest (λ t. Some (λ y. P y t) (x ∷ xs)) (or_later o rest)
      split none none h r = λ t p. elim p [ inl q ↦ h t q | inr q ↦ r t q ]
      split none (some s) h r =
          (inr r.0, (λ t p. elim p [ inl q ↦ absurd (h t q) | inr q ↦ r.1 t q ]))
      split (some s) rest h r = (
        inl h.0,
        (λ t p. elim p [ inl q ↦ h.1 t q | inr q ↦ All-beaten x xs s t before.0 h.0 q ]),
      )

-- strictly before, in the order of the search
abbrev pub Ahead : Bool → ℕ → ℕ → Type 0
Ahead latest a b = ahead latest a b ≡ true

All-insert_value :
    (P : ℕ → Type 0) (latest : Bool) (v : ℕ) (vs : List ℕ)
    → P v
    → All P vs
    → All P (insert_value latest v vs)
unfolding insert_value
All-insert_value P latest v [] p h = (p, tt)
All-insert_value P latest v (w ∷ ws) p h = elim (Bool-cases (eqb v w)) [
  | inl e ↦ rw e h
  | inr e ↦ elim (Bool-cases (ahead latest v w)) [
    | inl a ↦ rw (e, a) (p, h)
    | inr a ↦ rw (e, a) (h.0, All-insert_value P latest v ws p h.1)
  ]
]

further : (latest : Bool) (a b c : ℕ) → Ahead latest a b → Ahead latest b c → Ahead latest a c
unfolding ahead
further true a b c p q = ground arith
further false a b c p q = ground arith

turned : (latest : Bool) (a b : ℕ) → eqb a b ≡ false → ahead latest a b ≡ false → Ahead latest b a
unfolding ahead
turned true a b p q = ground arith
turned false a b p q = ground arith

insert_value-Pairs :
    (latest : Bool) (v : ℕ) (vs : List ℕ)
    → Pairs (Ahead latest) vs
    → Pairs (Ahead latest) (insert_value latest v vs)
unfolding insert_value
insert_value-Pairs latest v [] h = (tt, tt)
insert_value-Pairs latest v (w ∷ ws) h = elim (Bool-cases (eqb v w)) [
  | inl e ↦ rw e h
  | inr e ↦ elim (Bool-cases (ahead latest v w)) [
    | inl a ↦ rw (e, a) ((a, All-map ws (λ u b. further latest v w u a b) h.0), h)
    | inr a ↦
        rw (e, a)
          (
            All-insert_value (Ahead latest w) latest v ws (turned latest v w e a) h.0,
            insert_value-Pairs latest v ws h.1,
          )
  ]
]

pub sorted_values-Pairs :
    (latest : Bool) (vs : List ℕ) → Pairs (Ahead latest) (sorted_values latest vs)
unfolding sorted_values
sorted_values-Pairs latest [] = tt
sorted_values-Pairs latest (v ∷ vs) =
    insert_value-Pairs latest v (sorted_values latest vs) (sorted_values-Pairs latest vs)

among-insert_value :
    (latest : Bool) (u v : ℕ) (vs : List ℕ)
    → among u (insert_value latest v vs) ≡ (eqb u v || among u vs)
unfolding insert_value exists
among-insert_value latest u v [] = refl
among-insert_value latest u v (w ∷ ws) = ground (arith, among-insert_value latest u v ws)

-- sorting keeps the set
pub among-sorted_values :
    (latest : Bool) (u : ℕ) (vs : List ℕ) → among u (sorted_values latest vs) ≡ among u vs
unfolding sorted_values exists
among-sorted_values latest u [] = refl
among-sorted_values latest u (v ∷ vs) = ground (
  arith,
  among-insert_value latest u v (sorted_values latest vs),
  among-sorted_values latest u vs,
)

pub All-sorted_values :
    (P : ℕ → Type 0) (latest : Bool) (vs : List ℕ) → All P vs → All P (sorted_values latest vs)
unfolding sorted_values
All-sorted_values P latest [] h = tt
All-sorted_values P latest (v ∷ vs) h =
    All-insert_value P latest v (sorted_values latest vs) h.0 (All-sorted_values P latest vs h.1)

-- a member is an element, and an element a member
pub Some-among : (u : ℕ) (vs : List ℕ) → among u vs ≡ true → Some (λ v. v ≡ u) vs
unfolding exists
Some-among u [] h = cc
Some-among u (v ∷ vs) h = elim (Bool-cases (eqb u v)) [
  | inl e ↦ inl (ground (arith, e))
  | inr e ↦ inr (Some-among u vs (rw e at h))
]

pub among-Some : (u : ℕ) (vs : List ℕ) → Some (λ v. v ≡ u) vs → among u vs ≡ true
unfolding exists
among-Some u [] p = elim p [ ]
among-Some u (v ∷ vs) (inl e) = ground (arith, e)
among-Some u (v ∷ vs) (inr p) = ground (arith, among-Some u vs p)
