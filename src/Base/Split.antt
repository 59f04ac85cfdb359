-- ===== src/Base/Split.antt =====
-- Python's str.strip, str.split and slicing, on texts of characters.
use Prim.Native.Nat.{ℕ, zero, suc}
use Prim.Native.Char.{code}
use Prim.Native.String.{String}
use mathlib.Core.Bool.{Bool, ◌&&◌}
use mathlib.Core.List.{List, [], ◌∷◌}
use research_ops_automation.Base.Tests.{if◌then◌else◌, eqb}
use research_ops_automation.Base.Text.{is_blank, blank}

-- text.lstrip()
unfoldable pub strip_left : String → String
strip_left String.[] = ""
strip_left (String.◌∷◌ c s) =
    let rest = strip_left s in if is_blank (code c) then rest else String.◌∷◌ c s

-- text.rstrip()
unfoldable pub strip_right : String → String
strip_right String.[] = ""
strip_right (String.◌∷◌ c s) =
    let rest = strip_right s in if blank s && is_blank (code c) then "" else String.◌∷◌ c rest

-- text.strip()
unfoldable pub strip : String → String
unfolding strip_left strip_right is_blank blank
strip s = strip_right (strip_left s)

-- text[:n]
unfoldable pub take_text : ℕ → String → String
take_text zero s = ""
take_text (suc n) String.[] = ""
take_text (suc n) (String.◌∷◌ c s) = String.◌∷◌ c (take_text n s)

-- the parts of a text between the characters that the test accepts, never an empty list
unfoldable pub split_where : (ℕ → Bool) → String → List String
split_where p String.[] = "" ∷ []
split_where p (String.◌∷◌ c s) =
    let rest = split_where p s in if p (code c) then "" ∷ rest else grow rest
  where
    grow : List String → List String
    grow [] = String.◌∷◌ c "" ∷ []
    grow (part ∷ parts) = String.◌∷◌ c part ∷ parts

-- text.split(separator) for a separator of one character
unfoldable pub split_on : ℕ → String → List String
unfolding split_where
split_on separator = split_where (eqb separator)
