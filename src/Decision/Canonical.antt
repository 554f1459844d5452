-- ===== src/Decision/Canonical.antt =====
-- The canonical text of a JSON value and the hash of it (governance/decision.ts `canonicalJson`,
-- `buildGovernanceDecisionHash`). `JSON.stringify` of a value that is no array and no object, and
-- SHA-256, are parameters.
use deeprun.Prelude.{List, [], ◌∷◌, ◌++◌, Bool, map, Text, codes}
use deeprun.Json.{
  Json, null, boolean, number, string, array, object, Elements, no_element, element, Members,
  no_member, member,
}
use deeprun.GraphIdentity.Identity.{text_le, sorted}

-- `join(",")`.
abbrev pub join : List Text → Text
join [] = []
join (t ∷ []) = t
join (t ∷ u ∷ ts) = t ++ codes "," ++ join (u ∷ ts)

-- The comparison of entries, by their keys only.
abbrev pub key_le : Text × Text → Text × Text → Bool
key_le (k, _) (l, _) = text_le k l

abbrev pub entry_text : (Json → Text) → Text × Text → Text
entry_text stringify (k, t) = stringify (string k) ++ codes ":" ++ t

-- The entries of an object are sorted with the texts of their values, which the sort does not read.
unfoldable mutual
  pub canonical_json : (Json → Text) → Json → Text
  canonical_json stringify null = stringify null
  canonical_json stringify (boolean b) = stringify (boolean b)
  canonical_json stringify (number n) = stringify (number n)
  canonical_json stringify (string t) = stringify (string t)
  canonical_json stringify (array vs) =
      codes "[" ++ join (canonical_elements stringify vs) ++ codes "]"
  canonical_json stringify (object ms) =
      codes "{"
      ++ join (map (entry_text stringify) (sorted key_le (canonical_members stringify ms)))
      ++ codes "}"

  pub canonical_elements : (Json → Text) → Elements → List Text
  canonical_elements stringify no_element = []
  canonical_elements stringify (element v vs) =
      canonical_json stringify v ∷ canonical_elements stringify vs

  pub canonical_members : (Json → Text) → Members → List (Text × Text)
  canonical_members stringify no_member = []
  canonical_members stringify (member k v ms) =
      (k, canonical_json stringify v) ∷ canonical_members stringify ms

unfoldable pub build_governance_decision_hash : (Text → Text) → (Json → Text) → Json → Text
build_governance_decision_hash sha256 stringify payload = sha256 (canonical_json stringify payload)
