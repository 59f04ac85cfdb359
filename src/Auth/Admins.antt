-- ===== src/Auth/Admins.antt =====
-- The accounts keep an active administrator.
use research_ops_automation.Base.{
  ℕ, String, Bool, true, false, not, ◌&&◌, ◌||◌, ◌+◌, ◌≤◌, ◌≡◌, refl, some, List, [], ◌∷◌, find,
  update_where, count_where, All, Result, ok, err, Bool-cases, inl, inr, arith, find_unique,
  All-map,
}
use research_ops_automation.Auth.Rows.{User, Accounts, user_is, is_active_admin, is_admin_role}
use research_ops_automation.Auth.Manage.{
  UserChange, replace_password, with_password, changed_user, new_role, new_active, strips_admin,
}
use research_ops_automation.Auth.Steps.{kept, kept_with}

-- some administrator is active
abbrev pub IsStaffed : List User → Type 0
IsStaffed users = 1 ≤ count_where is_active_admin users

pub kept-IsStaffed :
    (auth : Accounts) (r : Result Accounts)
    → IsStaffed auth.users
    → ((stored : Accounts) → r ≡ ok stored → IsStaffed stored.users)
    → IsStaffed (kept auth r).users
kept-IsStaffed auth (err raised) staffed result = staffed
kept-IsStaffed auth (ok stored) staffed result = result stored refl

pub kept_with-IsStaffed {ℓ} :
    {A : Type ℓ} (auth : Accounts) (r : Result (A × Accounts))
    → IsStaffed auth.users
    → ((value : A) (stored : Accounts) → r ≡ ok (value, stored) → IsStaffed stored.users)
    → IsStaffed (kept_with auth r).users
kept_with-IsStaffed auth (err raised) staffed result = staffed
kept_with-IsStaffed auth (ok (value, stored)) staffed result = result value stored refl

module _ {ℓ} {A : Type ℓ} where
  -- an update that loses no selected row
  pub count-le-update_where :
      (q p : A → Bool) (f : A → A) (xs : List A)
      → All (λ x. p x ≡ true → q x ≡ true → q (f x) ≡ true) xs
      → count_where q xs ≤ count_where q (update_where p f xs)
  unfolding count_where update_where
  count-le-update_where q p f [] keep = omega arith
  count-le-update_where q p f (x ∷ xs) keep =
      ground (arith, keep.0, count-le-update_where q p f xs keep.1)

  -- an update loses at most the rows that it touches
  pub count-le-touched :
      (q p : A → Bool) (f : A → A) (xs : List A)
      → count_where q xs ≤ count_where q (update_where p f xs) + count_where p xs
  unfolding count_where update_where
  count-le-touched q p f [] = omega arith
  count-le-touched q p f (x ∷ xs) = ground (arith, count-le-touched q p f xs)

pub password-IsStaffed :
    (now : ℕ) (user_id credential : String) (must_change : Bool) (auth : Accounts)
    → IsStaffed auth.users
    → IsStaffed (replace_password now user_id credential must_change auth).users
unfolding replace_password
password-IsStaffed now user_id credential must_change auth staffed =
    let same =
      count-le-update_where is_active_admin (user_is user_id)
        (with_password now credential must_change) auth.users (all auth.users) in
    omega (arith, same)
  where
    all :
        (users : List User)
        → All
            (λ u.
              user_is user_id u ≡ true
              → is_active_admin u ≡ true
              → is_active_admin (with_password now credential must_change u) ≡ true)
            users
    all [] = tt
    all (u ∷ users) = ((λ _ t. t), all users)

-- the change of an account that strips_admin lets pass
pub changed-IsStaffed :
    (now : ℕ) (change : UserChange) (user : User) (name : String) (users : List User)
    → find (user_is user.user_id) users ≡ some user
    → count_where (user_is user.user_id) users ≤ 1
    → strips_admin change user users ≡ false
    → IsStaffed users
    → IsStaffed (update_where (user_is user.user_id) (changed_user now change user name) users)
unfolding strips_admin
changed-IsStaffed now change user name users found one passed staffed =
    elim (Bool-cases (
      is_active_admin user
      && (not (is_admin_role (new_role change user)) || not (new_active change user)))) [
        | inl t ↦ ground (
          arith,
          t,
          count-le-touched is_active_admin (user_is user.user_id)
              (changed_user now change user name) users,
        )
        | inr f ↦
            let unique = find_unique (user_is user.user_id) users user one found in
            let more =
              count-le-update_where is_active_admin (user_is user.user_id)
                (changed_user now change user name) users
                (All-map users (λ u same is admin. stays u (same is) admin f) unique) in
            omega (arith, more)
      ]
  where
    stays :
        (u : User)
        → u ≡ user
        → is_active_admin u ≡ true
        → (is_active_admin user
            && (not (is_admin_role (new_role change user)) || not (new_active change user)))
          ≡ false
        → is_active_admin (changed_user now change user name u) ≡ true
    stays u e admin f = let t : is_active_admin user ≡ true = rw e at admin in ground (arith, t, f)
