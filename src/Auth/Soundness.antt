-- ===== src/Auth/Soundness.antt =====
-- What every transaction of the accounts keeps: each user is one row, and each session that is stored
-- still counts for its user and ends in time.
use research_ops_automation.Base.{
  String, Bool, true, false, ◌==◌, ◌+◌, ◌≤◌, ◌≡◌, ◌∙◌, List, [], ◌∷◌, ◌++◌, exists, remove_where,
  update_where, count_where, All, opt_str_eq, Bool-cases, inl, inr, arith, eq_iff, exists-append,
  exists-count, count-append, count-update_where-le, All-append, All-map, All-remove_where,
  All-update_where, exists-update_where-All, All-always, All-removed,
}
use research_ops_automation.Auth.Rows.{
  User, Session, Accounts, is_authenticated, user_is, session_of, session_absolute,
}
use research_ops_automation.Auth.Sessions.{backs}

-- a session that counts: it lasts twelve hours at most, and one that is authenticated names an active
-- user with its revision
abbrev pub Counts : List User → Session → Type 0
Counts users s =
    (is_authenticated s.kind ≡ true → exists (backs s) users ≡ true)
    × (s.expires_at ≤ s.created_at + session_absolute)

abbrev pub IsSound : List User → List Session → Type 0
IsSound users sessions =
    ((user_id : String) → count_where (user_is user_id) users ≤ 1) × All (Counts users) sessions

abbrev pub IsSoundAccounts : Accounts → Type 0
IsSoundAccounts auth = IsSound auth.users auth.sessions

pub remove_where-IsSound :
    (users : List User) (p : Session → Bool) (sessions : List Session)
    → IsSound users sessions
    → IsSound users (remove_where p sessions)
remove_where-IsSound users p sessions sound =
    (sound.0, All-remove_where (Counts users) p sessions sound.1)

pub add_session-IsSound :
    (users : List User) (sessions : List Session) (s : Session)
    → IsSound users sessions
    → Counts users s
    → IsSound users (sessions ++ s ∷ [])
add_session-IsSound users sessions s sound counts =
    (sound.0, All-append (Counts users) sessions s sound.1 counts)

pub update_sessions-IsSound :
    (users : List User) (p : Session → Bool) (f : Session → Session) (sessions : List Session)
    → ((s : Session) → p s ≡ true → Counts users s → Counts users (f s))
    → IsSound users sessions
    → IsSound users (update_where p f sessions)
update_sessions-IsSound users p f sessions keep sound =
    (sound.0, All-update_where (Counts users) p f sessions keep sound.1)

one_each :
    (users : List User) (user : User) (user_id : String)
    → exists (user_is user.user_id) users ≡ false
    → count_where (user_is user_id) users ≤ 1
    → count_where (user_is user_id) (users ++ user ∷ []) ≤ 1
one_each users user user_id new one = elim (Bool-cases (user.user_id == user_id)) [
  | inl t ↦
      let e = (eq_iff user.user_id user_id).0 t in
      let fresh = exists-count (user_is user_id) users (rw e at new) in
      ground (arith, count-append (user_is user_id) users user, fresh)
  | inr f ↦ ground (arith, count-append (user_is user_id) users user, f)
]

pub add_user-IsSound :
    (users : List User) (user : User) (sessions : List Session)
    → exists (user_is user.user_id) users ≡ false
    → IsSound users sessions
    → IsSound (users ++ user ∷ []) sessions
add_user-IsSound users user sessions new sound = (
  (λ user_id. one_each users user user_id new (sound.0 user_id)),
  All-map sessions
      (λ s counts.
        ((λ t. ground (arith, exists-append (backs s) users user, counts.0 t)), counts.1))
      sound.1,
)

-- an update of a user that the stored sessions do not notice
pub update_user-IsSound :
    (users : List User) (user_id : String) (f : User → User) (sessions : List Session)
    → ((u : User) → (f u).user_id ≡ u.user_id)
    → All
        (λ (s : Session). All (λ u. user_is user_id u ≡ true → backs s (f u) ≡ backs s u) users)
        sessions
    → IsSound users sessions
    → IsSound (update_where (user_is user_id) f users) sessions
update_user-IsSound users user_id f sessions keep same sound = (
  (λ i. ground (
    arith,
    sound.0 i,
    count-update_where-le (user_is i) (user_is user_id) f users (λ u t e. rw (keep u) at e),
  )),
  both sessions same sound.1,
)
  where
    both :
        (ss : List Session)
        → All
            (λ (s : Session). All (λ u. user_is user_id u ≡ true → backs s (f u) ≡ backs s u) users)
            ss
        → All (Counts users) ss
        → All (Counts (update_where (user_is user_id) f users)) ss
    both [] a b = tt
    both (s ∷ ss) a b = (
      ((λ t. exists-update_where-All (backs s) (user_is user_id) f users a.0 ∙ b.0.0 t), b.0.1),
      both ss a.1 b.1,
    )

stranger :
    (user_id : String) (f : User → User) (s : Session) (u : User)
    → ((v : User) → (f v).user_id ≡ v.user_id)
    → session_of user_id s ≡ false
    → user_is user_id u ≡ true
    → backs s (f u) ≡ backs s u
stranger user_id f s u keep other is =
    let e = (eq_iff u.user_id user_id).0 is in
    let a : opt_str_eq s.user_id u.user_id ≡ false = rw e other in
    let b : opt_str_eq s.user_id (f u).user_id ≡ false = rw (keep u) a in ground (arith, a, b)

-- an update of a user that ends the user's sessions
pub revoke-IsSound :
    (users : List User) (user_id : String) (f : User → User) (sessions : List Session)
    → ((u : User) → (f u).user_id ≡ u.user_id)
    → IsSound users sessions
    → IsSound (update_where (user_is user_id) f users) (remove_where (session_of user_id) sessions)
revoke-IsSound users user_id f sessions keep sound =
    update_user-IsSound users user_id f (remove_where (session_of user_id) sessions) keep
      (others sessions) (remove_where-IsSound users (session_of user_id) sessions sound)
  where
    others :
        (ss : List Session)
        → All
            (λ (s : Session). All (λ u. user_is user_id u ≡ true → backs s (f u) ≡ backs s u) users)
            (remove_where (session_of user_id) ss)
    others ss =
        All-map (remove_where (session_of user_id) ss)
          (λ s other. All-always _ users (λ u is. stranger user_id f s u keep other is))
          (All-removed (session_of user_id) ss)
