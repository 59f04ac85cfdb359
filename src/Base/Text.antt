-- ===== src/Base/Text.antt =====
-- The tests that the code makes on a text: character classes, lengths, blanks.
use Prim.Native.Nat.{ℕ}
use Prim.Native.Char.{code}
use Prim.Native.String
use Prim.Native.String.{String}
use mathlib.Core.Bool.{Bool, true, false, ◌&&◌, ◌||◌}
use mathlib.Core.List.{List, [], ◌∷◌}
use text.Mathlib.Text.{◌==◌}
use research_ops_automation.Base.Tests.{ltb, leb, eqb}

unfoldable pub all_chars : (ℕ → Bool) → String → Bool
all_chars p String.[] = true
all_chars p (String.◌∷◌ c s) = p (code c) && all_chars p s

abbrev pub between : ℕ → ℕ → ℕ → Bool
between lo hi c = leb lo c && leb c hi

-- [0-9a-f]
unfoldable pub is_hex : ℕ → Bool
is_hex c = between b'0' b'9' c || between b'a' b'f' c

-- [A-Za-z0-9_-]
unfoldable pub is_word : ℕ → Bool
is_word c =
    between b'A' b'Z' c || between b'a' b'z' c || between b'0' b'9' c || eqb c b'_' || eqb c b'-'

-- ord(c) < 32 or ord(c) == 127
unfoldable pub is_control : ℕ → Bool
is_control c = ltb c 32 || eqb c 127

-- len(text), in code points
abbrev pub text_length : String → ℕ
text_length = String.count

-- re.fullmatch(r"[0-9a-f]{64}", text)
unfoldable pub is_sha256 : String → Bool
unfolding all_chars is_hex
is_sha256 s = eqb (text_length s) 64 && all_chars is_hex s

-- re.fullmatch(r"[A-Za-z0-9_-]{1,200}", text)
unfoldable pub is_identifier : String → Bool
unfolding all_chars is_word
is_identifier s = between 1 200 (text_length s) && all_chars is_word s

-- str.isspace() of one character
unfoldable pub is_blank : ℕ → Bool
is_blank c =
    between 9 13 c
    || between 28 32 c
    || eqb c 0x85
    || eqb c 0xa0
    || eqb c 0x1680
    || between 0x2000 0x200a c
    || eqb c 0x2028
    || eqb c 0x2029
    || eqb c 0x202f
    || eqb c 0x205f
    || eqb c 0x3000

-- text.strip() == ""
unfoldable pub blank : String → Bool
unfolding all_chars is_blank
blank s = all_chars is_blank s

unfoldable pub contains : String → List String → Bool
contains s [] = false
contains s (t ∷ ts) = t == s || contains s ts
