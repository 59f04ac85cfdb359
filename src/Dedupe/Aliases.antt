-- ===== src/Dedupe/Aliases.antt =====
-- validate_entity_aliases and equivalent_records: identities that an operator has declared equal.
use research_ops_automation.Base.{
  ℕ, String, Bool, true, false, not, ◌&&◌, ◌||◌, ◌==◌, leb, ltb, Option, none, some, List, [], ◌∷◌,
  map, find, exists, length, Result, ok, validation, ◌>>=◌, ◌>>◌, guard,
}
use research_ops_automation.Base.Host.{Host}
use research_ops_automation.Base.Json.{
  Json, Fields, str, arr, obj, end, field, get, items, elements, texts, merge_fields,
}
use research_ops_automation.Base.Text.{blank, between, text_length}
use research_ops_automation.Delivery.Authorization.{has_exactly}
use research_ops_automation.Delivery.Reported.{derive_entity_key, is_empty}

-- config.get(name, []), of which the text entries
abbrev pub names : String → Json → List String
names name config = texts (elements (get name config))

-- a text that is not blank and has at most `most` characters
unfoldable pub bounded_text : ℕ → Option Json → Bool
bounded_text most (some (str s)) = not (blank s) && leb (text_length s) most
bounded_text most _ = false

unfoldable pub all_bounded : Fields → Bool
unfolding bounded_text
all_bounded end = true
all_bounded (field k v fs) = bounded_text 256 (some v) && all_bounded fs

unfoldable pub bounded_values : Json → Bool
unfolding all_bounded
bounded_values (obj fs) = all_bounded fs
bounded_values _ = false

-- an array, which a missing value defaults to
unfoldable pub is_list : Option Json → Bool
is_list none = true
is_list (some (arr xs)) = true
is_list _ = false

unfoldable pub has_length : ℕ → ℕ → Option Json → Bool
has_length lo hi (some (arr xs)) = between lo hi (length (items xs))
has_length lo hi _ = false

unfoldable pub same_entity : Option String → Option String → Bool
same_entity none none = true
same_entity (some a) (some b) = a == b
same_entity _ _ = false

unfoldable pub seen_key : Option String → List (Option String) → Bool
unfolding same_entity
seen_key key [] = false
seen_key key (k ∷ ks) = same_entity k key || seen_key key ks

module _ (host : Host) where
  unfoldable pub check_identities :
      List String → List Json → List (Option String) → Result (List (Option String))
  unfolding bounded_values seen_key has_exactly
  check_identities ks [] seen = ok seen
  check_identities ks (i ∷ is) seen = do
    guard (not (has_exactly ks i) || not (bounded_values i))
        (validation "Dedupe aliases must specify every key field as a nonempty string")
    guard (seen_key (derive_entity_key host i ks) seen)
        (validation "Dedupe alias identities must not repeat or overlap groups")
    check_identities ks is (derive_entity_key host i ks ∷ seen)

  unfoldable pub check_groups :
      List String → List Json → List (Option String) → Result (List (Option String))
  unfolding bounded_text has_length has_exactly is_empty
  check_groups ks [] seen = ok seen
  check_groups ks (g ∷ gs) seen = do
    guard (not (has_exactly ("identities" ∷ "evidence" ∷ []) g))
        (validation "Each dedupe alias group requires identities and evidence")
    guard (not (bounded_text 2048 (get "evidence" g)))
        (validation "Dedupe identity aliases require bounded evidence")
    guard (not (has_length 2 8 (get "identities" g)) || is_empty ks)
        (validation "Dedupe alias groups require 2-8 complete identities")
    seen' ← check_identities ks (elements (get "identities" g)) seen
    check_groups ks gs seen'

  unfoldable pub validate_entity_aliases : Json → Result (Unit {0})
  unfolding is_list
  validate_entity_aliases config = do
    guard
        (not (is_list (get "entity_aliases" config))
          || ltb 128 (length (elements (get "entity_aliases" config))))
        (validation "dedupe.entity_aliases must contain at most 128 groups")
    check_groups (names "key_fields" config) (elements (get "entity_aliases" config)) [] >>= λ seen.
        ok tt

  -- one of the group's identities has the record's key
  abbrev pub group_has : List String → Option String → Json → Bool
  group_has ks key g =
      exists (λ i. same_entity (derive_entity_key host i ks) key) (elements (get "identities" g))

  -- dict(record, **identity)
  unfoldable pub with_identity : Json → Json → Json
  with_identity (obj fs) (obj gs) = obj (merge_fields fs gs)
  with_identity record' identity = record'

  unfoldable pub equivalent_records : Json → Json → List Json
  equivalent_records record' config =
      elim (find
        (group_has (names "key_fields" config)
          (derive_entity_key host record' (names "key_fields" config)))
        (elements (get "entity_aliases" config))) [
          | none ↦ record' ∷ []
          | some g ↦ map (with_identity record') (elements (get "identities" g))
        ]
