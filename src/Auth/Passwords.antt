-- ===== src/Auth/Passwords.antt =====
-- auth_service.py: the texts of a password, a stored credential, a user name and a display name.
-- Bytes are texts of one character each. Not modelled: a password that has no UTF-8 form, which a
-- text here cannot be.
use Prim.Native.Char.{code}
use Prim.Native.String
use research_ops_automation.Base.{
  ℕ, String, Bool, false, not, ◌&&◌, ◌||◌, ◌==◌, eqb, ltb, Option, none, some, List, [], ◌∷◌,
  Result, ok, err, ◌>>=◌, validation, rate_limit, if◌then◌else◌,
}
use research_ops_automation.Base.Text.{all_chars, between, is_control, is_word, text_length}
use research_ops_automation.Base.Split.{split_on, strip}
use research_ops_automation.Auth.Rows.{Call}

-- what the code takes from Python's library
pub record Crypt : Type 0 where
  -- text.lower()
  pub lower : String → String
  -- hashlib.scrypt(password, salt=salt, n=2**17, r=8, p=1, dklen=64)
  pub scrypt : String → String → String
  -- base64.b64encode(bytes).decode("ascii")
  pub b64encode : String → String
  -- base64.b64decode(text, validate=True), none where it raises
  pub b64decode : String → Option String

-- _TOKEN.fullmatch
unfoldable pub is_token : String → Bool
unfolding all_chars is_word
is_token s = eqb (text_length s) 43 && all_chars is_word s

unfoldable pub is_nul : ℕ → Bool
is_nul c = eqb c 0

unfoldable pub is_password : String → Bool
unfolding all_chars is_nul
is_password s = between 15 128 (text_length s) && all_chars (λ c. not (is_nul c)) s

-- _validate_password: the bytes
unfoldable pub validate_password : String → Result String
validate_password password =
    if is_password password then ok password else err (validation "Password")

-- bytes(16)
abbrev pub zero_salt : String
zero_salt = "\0\0\0\0\0\0\0\0\0\0\0\0\0\0\0\0"

unfoldable pub or_text : Option String → String
or_text none = ""
or_text (some s) = s

abbrev pub is_lower_or_digit : ℕ → Bool
is_lower_or_digit c = between b'a' b'z' c || between b'0' b'9' c

-- [a-z0-9_.-]
unfoldable pub is_name_char : ℕ → Bool
is_name_char c = is_lower_or_digit c || eqb c b'_' || eqb c b'.' || eqb c b'-'

unfoldable pub starts_with : (ℕ → Bool) → String → Bool
starts_with p s = first s
  where
    first : String → Bool
    first String.[] = false
    first (String.◌∷◌ c s) = p (code c)

-- _USERNAME.fullmatch
unfoldable pub is_username : String → Bool
unfolding starts_with all_chars is_name_char
is_username s =
    starts_with is_lower_or_digit s && all_chars is_name_char s && between 3 64 (text_length s)

-- _display_name
unfoldable pub check_display_name : Option String → String → Result String
unfolding strip or_text all_chars is_control
check_display_name value fallback =
    bounded (if strip (or_text value) == "" then fallback else strip (or_text value))
  where
    bounded : String → Result String
    bounded name =
        if ltb 80 (text_length name) || not (all_chars (λ c. not (is_control c)) name)
        then err (validation "Display name")
        else ok name

module _ (crypt : Crypt) where
  -- _derive
  unfoldable pub derive : Call → String → String → Result String
  derive call password salt =
      if call.slot_free then ok (crypt.scrypt password salt) else err (rate_limit "Try again")

  unfoldable pub encoded : String → String → String
  encoded salt derived =
      String.◌++◌ "scrypt$131072$8$1$"
        (String.◌++◌ (crypt.b64encode salt) (String.◌++◌ "$" (crypt.b64encode derived)))

  unfoldable pub hash_password : Call → String → Result String
  unfolding validate_password derive encoded
  hash_password call password = validate_password password >>= λ value.
      derive call value call.salt >>= λ derived. ok (encoded call.salt derived)

  -- the salt and the digest of a credential, none where the code raises ValueError
  unfoldable pub stored_bytes : String → String → Option (String × String)
  stored_bytes salt_text digest_text =
      both (crypt.b64decode salt_text) (crypt.b64decode digest_text)
    where
      both : Option String → Option String → Option (String × String)
      both (some salt) (some digest) =
          if eqb (text_length salt) 16 && eqb (text_length digest) 64
          then some (salt, digest)
          else none
      both _ _ = none

  unfoldable pub credential : List String → Option (String × String)
  unfolding stored_bytes
  credential (algorithm ∷ n ∷ r ∷ p ∷ salt_text ∷ digest_text ∷ []) =
      if algorithm == "scrypt" && n == "131072" && r == "8" && p == "1"
      then stored_bytes salt_text digest_text
      else none
  credential _ = none

  -- hmac.compare_digest(_derive(value, salt), expected) and valid
  unfoldable pub compare_password : Call → String → Bool → Option (String × String) → Result Bool
  unfolding derive
  compare_password call value valid none = derive call value zero_salt >>= λ derived. ok false
  compare_password call value valid (some (salt, expected)) =
      derive call value salt >>= λ derived. ok (derived == expected && valid)

  unfoldable pub verify_password : Call → Option String → String → Result Bool
  unfolding is_password split_on credential or_text compare_password
  verify_password call stored password =
      compare_password call
        (if is_password password then password else "invalid-password-placeholder")
        (is_password password) (credential (split_on b'$' (or_text stored)))

  -- value.strip().lower()
  unfoldable pub normalized : String → String
  unfolding strip
  normalized value = crypt.lower (strip value)

  -- _username
  unfoldable pub check_username : String → Result String
  unfolding is_username normalized
  check_username value =
      if is_username (normalized value) then ok (normalized value) else err (validation "Username")
