-- ===== src/Queue/Invariant.antt =====
-- The invariant of smtp_attempts, kept by every move.
use research_ops_automation.Base.{
  ℕ, ◌≤◌, String, Bool, true, false, ◌&&◌, ◌||◌, ◌==◌, eq_iff, eq_refl, eqb, ◌≡◌, refl, Option,
  none, some, List, [], ◌∷◌, ◌++◌, exists, count_where, update_where, All, All-map, All-always,
  All-append, if◌then◌else◌, arith, exists-update_where-All, count_narrow, Bool-cases, inl, inr,
  count-update_where-le-All, count-append, exists-append, exists-count,
}
use research_ops_automation.Domain.{Attempt}
use research_ops_automation.Delivery.Rows.{job_is, for_handoff, is_data_started}
use research_ops_automation.Queue.Insert.{clashes, same_key}
use research_ops_automation.Queue.Moves.{
  misplaced, SameRow, Fresh, live_for, Move, quiet, starts, first, again,
}

-- the first attempt of the handoff
abbrev pub first_for : String → Attempt → Bool
first_for h a = for_handoff h a && eqb a.attempt_number 1

-- A job is one row; a handoff has one row at most that is pending or accepted; and a handoff that
-- has attempts has a first one.
pub record IsSound (xs : List Attempt) : Type 0 where
  pub one_job : (job : String) → count_where (job_is job) xs ≤ 1
  pub one_live : (h : String) → count_where (live_for h) xs ≤ 1
  pub has_first : (h : String) → exists (for_handoff h) xs ≡ true → exists (first_for h) xs ≡ true
  pub orderly : All (λ a. misplaced a ≡ false) xs

orderly-update :
    (p : Attempt → Bool) (f : Attempt → Attempt) (xs : List Attempt)
    → All (λ x. p x ≡ true → SameRow x (f x)) xs
    → All (λ a. misplaced a ≡ false) xs
    → All (λ a. misplaced a ≡ false) (update_where p f xs)
unfolding update_where
orderly-update p f [] rows h = tt
orderly-update p f (x ∷ xs) rows h = (here, orderly-update p f xs rows.1 h.1)
  where
    here : misplaced (if p x then f x else x) ≡ false
    here = elim (Bool-cases (p x)) [
      | inl t ↦ let r = rows.0 t in ground (arith, t, r.placed, h.0)
      | inr n ↦ rw n h.0
    ]

Fresh-misplaced : (a : Attempt) (xs : List Attempt) → Fresh a xs → misplaced a ≡ false
unfolding misplaced is_data_started
Fresh-misplaced a xs h = ground arith

-- rows that are changed in place
IsSound-update_where :
    (p : Attempt → Bool) (f : Attempt → Attempt) (xs : List Attempt)
    → All (λ x. p x ≡ true → SameRow x (f x)) xs
    → IsSound xs
    → IsSound (update_where p f xs)
IsSound-update_where p f xs rows h = record {
  one_job = λ job. omega (
    arith,
    h.one_job job,
    count-update_where-le-All (job_is job) p f xs
        (All-map xs (λ x q t. let e = (q t).job in λ u. rw e u) rows),
  );
  one_live = λ g. omega (
    arith,
    h.one_live g,
    count-update_where-le-All (live_for g) p f xs
        (All-map xs (λ x q t. let r = q t in λ u. ground (arith, r.alive, r.handoff)) rows),
  );
  has_first = λ g owned.
      rw
        (exists-update_where-All (first_for g) p f xs
          (All-map xs (λ x q t. let r = q t in ground (arith, r.number, r.handoff)) rows))
        (h.has_first g (
          rw
            (exists-update_where-All (for_handoff g) p f xs
              (All-map xs (λ x q t. let r = q t in ground (arith, r.handoff)) rows))
            at owned));
  orderly = orderly-update p f xs rows h.orderly;
}

pub owner_of : (h : String) (a : Attempt) → for_handoff h a ≡ true → a.handoff_id ≡ some h
owner_of h a t = go a.handoff_id refl
  where
    go : (o : Option String) → a.handoff_id ≡ o → a.handoff_id ≡ some h
    go none e = ground arith
    go (some g) e = ground (arith, eq_iff g h)

same_owner :
    (h : String) (x a : Attempt)
    → for_handoff h x ≡ true
    → a.handoff_id ≡ some h
    → same_key x.handoff_id a.handoff_id ≡ true
same_owner h x a t o = rw (owner_of h x t, o) (eq_refl h)

-- the rows that a new row does not clash with
fresh_job :
    (job : String) (a : Attempt) (xs : List Attempt)
    → exists (clashes a) xs ≡ false
    → job_is job a ≡ true
    → count_where (job_is job) xs ≤ 0
unfolding exists count_where clashes
fresh_job job a [] h t = omega arith
fresh_job job a (x ∷ xs) h t =
    ground (
      arith,
      fresh_job job a xs,
      eq_iff x.job_id job,
      eq_iff a.job_id job,
      eq_iff x.job_id a.job_id,
    )

-- a row with the number 1 of the new row's handoff would clash with a new first attempt
numbered_key : (k : Bool) (m n : ℕ) → k ≡ true → n ≡ 1 → (k && eqb m n) ≡ false → eqb m 1 ≡ false
numbered_key k m n t e h = ground arith

clash_parts :
    (a x : Attempt)
    → clashes a x ≡ false
    → (same_key x.handoff_id a.handoff_id && eqb x.attempt_number a.attempt_number) ≡ false
unfolding clashes
clash_parts a x h =
    parts (x.job_id == a.job_id)
      (same_key x.handoff_id a.handoff_id && eqb x.attempt_number a.attempt_number) _ _ h
  where
    parts : (b c d e : Bool) → (b || c || d || e) ≡ false → c ≡ false
    parts b c d e q = ground arith

not_first :
    (h : String) (a x : Attempt)
    → clashes a x ≡ false
    → a.attempt_number ≡ 1
    → a.handoff_id ≡ some h
    → first_for h x ≡ false
not_first h a x c n o = elim (Bool-cases (for_handoff h x)) [
  | inl mine ↦ rw mine (
      numbered_key (same_key x.handoff_id a.handoff_id) x.attempt_number a.attempt_number
        (same_owner h x a mine o) n (clash_parts a x c))
  | inr other ↦ rw other refl
]

fresh_first :
    (h : String) (a : Attempt) (xs : List Attempt)
    → exists (clashes a) xs ≡ false
    → a.attempt_number ≡ 1
    → a.handoff_id ≡ some h
    → exists (first_for h) xs ≡ false
unfolding exists
fresh_first h a [] c n o = refl
fresh_first h a (x ∷ xs) c n o =
    let (here, rest) = neither (clashes a x) (exists (clashes a) xs) c in
    rw (not_first h a x here n o) (fresh_first h a xs rest n o)
  where
    neither : (b d : Bool) → (b || d) ≡ false → (b ≡ false) × (d ≡ false)
    neither b d q = ground arith

append_job :
    (a : Attempt) (xs : List Attempt)
    → Fresh a xs
    → IsSound xs
    → (job : String) → count_where (job_is job) (xs ++ a ∷ []) ≤ 1
append_job a xs fresh h job =
    ground (arith, count-append (job_is job) xs a, h.one_job job, fresh_job job a xs fresh.clear)

first-IsSound :
    (a : Attempt) (xs : List Attempt)
    → Fresh a xs
    → a.attempt_number ≡ 1
    → IsSound xs
    → IsSound (xs ++ a ∷ [])
first-IsSound a xs fresh number h = record {
  one_job = append_job a xs fresh h;
  one_live = λ g. elim (Bool-cases (for_handoff g a)) [
    | inl mine ↦ elim (Bool-cases (exists (for_handoff g) xs)) [
      | inl old ↦ absurd (
          ground
            (arith, h.has_first g old, fresh_first g a xs fresh.clear number (owner_of g a mine)))
      | inr new ↦ ground (
        arith,
        count-append (live_for g) xs a,
        count_narrow (live_for g) (for_handoff g) xs (λ x t. ground arith) new,
      )
    ]
    | inr other ↦ ground (arith, count-append (live_for g) xs a, h.one_live g)
  ];
  has_first = λ g.
      ground (
        arith,
        exists-append (for_handoff g) xs a,
        exists-append (first_for g) xs a,
        h.has_first g,
      );
  orderly = All-append (λ x. misplaced x ≡ false) xs a h.orderly (Fresh-misplaced a xs fresh);
}

again-IsSound :
    (a : Attempt) (g : String) (xs : List Attempt)
    → Fresh a xs
    → a.handoff_id ≡ some g
    → exists (for_handoff g) xs ≡ true
    → exists (live_for g) xs ≡ false
    → IsSound xs
    → IsSound (xs ++ a ∷ [])
again-IsSound a g xs fresh owner parent clear h = record {
  one_job = append_job a xs fresh h;
  one_live = λ k. ground (
    arith,
    count-append (live_for k) xs a,
    h.one_live k,
    exists-count (live_for g) xs clear,
    eq_iff g k,
  );
  has_first = λ k. ground (
    arith,
    exists-append (for_handoff k) xs a,
    exists-append (first_for k) xs a,
    h.has_first k,
    eq_iff g k,
  );
  orderly = All-append (λ x. misplaced x ≡ false) xs a h.orderly (Fresh-misplaced a xs fresh);
}

pub Move-IsSound :
    (may : String → Bool) (xs ys : List Attempt) → Move may xs ys → IsSound xs → IsSound ys
Move-IsSound may xs ys (quiet p f rows) h =
    IsSound-update_where p f xs (All-map xs (λ x q t. (q t).same) rows) h
Move-IsSound may xs ys (starts job p f m named rows) h =
    IsSound-update_where p f xs (All-always _ xs rows) h
Move-IsSound may xs ys (first a fresh number) h = first-IsSound a xs fresh number h
Move-IsSound may xs ys (again a g fresh owner parent clear) h =
    again-IsSound a g xs fresh owner parent clear h

pub nothing-IsSound : IsSound []
unfolding count_where exists
nothing-IsSound = record {
  one_job = λ j. omega arith;
  one_live = λ h. omega arith;
  has_first = λ h t. absurd (ground arith);
  orderly = tt;
}

-- a table of one first attempt
pub one_row-IsSound : (a : Attempt) → a.attempt_number ≡ 1 → misplaced a ≡ false → IsSound (a ∷ [])
unfolding count_where exists
one_row-IsSound a number placed = record {
  one_job = λ j. ground arith;
  one_live = λ h. ground arith;
  has_first = λ h t. ground arith;
  orderly = (placed, tt);
}
