-- ===== src/Auth/Credentials.antt =====
-- A credential that hash_password makes proves its password.
use Prim.Native.Char.{Char, code}
use text.Mathlib.TextLemmas.{nil-append, cons-append, append_assoc}
use Prim.Native.String
use research_ops_automation.Base.{
  String, Bool, true, not, ◌&&◌, ◌≡◌, refl, ◌∙◌, ap, eqb, some, [], ◌∷◌, ok, arith, eq_refl,
}
use research_ops_automation.Base.Text.{all_chars, text_length}
use research_ops_automation.Base.Split.{split_on, split_where}
use research_ops_automation.Auth.Rows.{Call}
use research_ops_automation.Auth.Passwords.{
  Crypt, hash_password, verify_password, is_password, encoded, credential,
}

-- a text without the separator
abbrev pub IsPart : String → Type 0
IsPart s = all_chars (λ c. not (eqb b'$' c)) s ≡ true

split_part : (s : String) → IsPart s → split_on b'$' s ≡ s ∷ []
unfolding all_chars split_on split_where
split_part String.[] h = refl
split_part (String.◌∷◌ c s) h = ground (arith, split_part s)

split_parts :
    (s t : String)
    → IsPart s
    → split_on b'$' (String.◌++◌ s (String.◌++◌ "$" t)) ≡ s ∷ split_on b'$' t
unfolding all_chars split_on split_where
split_parts String.[] t h =
    rw (nil-append (String.◌++◌ "$" t), cons-append "$" "" t, nil-append t) refl
split_parts (String.◌∷◌ c s) t h =
    let (here, rest) = halves (not (eqb b'$' (code c))) (all_chars (λ c. not (eqb b'$' c)) s) h in
    rw (cons-append c s (String.◌++◌ "$" t)) (grown c s t here (split_parts s t rest))
  where
    halves : (b d : Bool) → (b && d) ≡ true → (b ≡ true) × (d ≡ true)
    halves b d q = ground arith

    grown :
        (c : Char) (s t : String)
        → not (eqb b'$' (code c)) ≡ true
        → split_on b'$' (String.◌++◌ s (String.◌++◌ "$" t)) ≡ s ∷ split_on b'$' t
        → split_on b'$' (String.◌∷◌ c (String.◌++◌ s (String.◌++◌ "$" t)))
          ≡ String.◌∷◌ c s ∷ split_on b'$' t
    grown c s t here e = rw e (ground (arith, here))

-- the same where a longer text follows
split_more :
    (s t u : String)
    → IsPart s
    → split_on b'$' (String.◌++◌ (String.◌++◌ s (String.◌++◌ "$" t)) u)
      ≡ s ∷ split_on b'$' (String.◌++◌ t u)
split_more s t u h =
    rw (append_assoc s (String.◌++◌ "$" t) u, append_assoc "$" t u)
      (split_parts s (String.◌++◌ t u) h)

split_encoded :
    (salt digest : String)
    → IsPart salt
    → IsPart digest
    → split_on b'$' (String.◌++◌ "scrypt$131072$8$1$" (String.◌++◌ salt (String.◌++◌ "$" digest)))
      ≡ "scrypt" ∷ "131072" ∷ "8" ∷ "1" ∷ salt ∷ digest ∷ []
unfolding all_chars
split_encoded salt digest s d =
    let rest = String.◌++◌ salt (String.◌++◌ "$" digest) in
    split_more "scrypt" "131072$8$1$" rest refl
    ∙ ap (λ l. "scrypt" ∷ l) (split_more "131072" "8$1$" rest refl)
    ∙ ap (λ l. "scrypt" ∷ "131072" ∷ l) (split_more "8" "1$" rest refl)
    ∙ ap (λ l. "scrypt" ∷ "131072" ∷ "8" ∷ l) (split_more "1" "" rest refl)
    ∙ ap (λ l. "scrypt" ∷ "131072" ∷ "8" ∷ "1" ∷ l)
        (ap (split_on b'$') (nil-append rest)
          ∙ split_parts salt digest s
          ∙ ap (λ l. salt ∷ l) (split_part digest d))

-- base64 gives a text without a separator, and reads its own texts back
abbrev pub IsEncoded : Crypt → String → Type 0
IsEncoded crypt bytes =
    IsPart (crypt.b64encode bytes) × (crypt.b64decode (crypt.b64encode bytes) ≡ some bytes)

module _ (crypt : Crypt) where
  read :
      (salt password : String)
      → IsEncoded crypt salt
      → IsEncoded crypt (crypt.scrypt password salt)
      → text_length salt ≡ 16
      → text_length (crypt.scrypt password salt) ≡ 64
      → credential crypt (split_on b'$' (encoded crypt salt (crypt.scrypt password salt)))
        ≡ some (salt, crypt.scrypt password salt)
  unfolding encoded credential
  read salt password s d short long =
      ap (credential crypt) (split_encoded _ _ s.0 d.0) ∙ ground (arith, s.1, d.1, short, long)

  made :
      (call : Call) (password stored : String)
      → hash_password crypt call password ≡ ok stored
      → (is_password password ≡ true)
        × (stored ≡ encoded crypt call.salt (crypt.scrypt password call.salt))
  unfolding hash_password
  made call password stored h = ground arith

  -- A credential that hash_password made proves its password wherever a slot for the derivation
  -- is free, given that base64 reads its texts of the salt and the digest back and puts no
  -- dollar sign into them, and that the salt has sixteen bytes and the digest sixty-four.
  pub verify-hash_password :
      (call again : Call) (password stored : String)
      → IsEncoded crypt call.salt
      → IsEncoded crypt (crypt.scrypt password call.salt)
      → text_length call.salt ≡ 16
      → text_length (crypt.scrypt password call.salt) ≡ 64
      → again.slot_free ≡ true
      → hash_password crypt call password ≡ ok stored
      → verify_password crypt again (some stored) password ≡ ok true
  unfolding verify_password
  verify-hash_password call again password stored s d short long free h =
      let (good, e) = made call password stored h in
      rw (
        e,
        good,
        read call.salt password s d short long,
        free,
        eq_refl (crypt.scrypt password call.salt),
      )
