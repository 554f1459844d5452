-- ===== src/Decision/Reordered.antt =====
-- The order of the keys of objects does not count in a canonical text (governance/decision.ts).
use deeprun.Prelude.{
  ◌≡◌, refl, sym, ap, ◌∙◌, true, false, ◌++◌, map, Text, codes, text_eq, text_eq_refl,
}
use deeprun.Json.{Json, array, object, Elements, no_element, element, Members, no_member, member}
use deeprun.GraphIdentity.Identity.{text_le, sorted, insert_sorted}
use deeprun.GraphIdentity.Order.{text_le_total, text_le_trans, text_le_antisym, insert_swap}
use deeprun.Decision.Canonical.{
  join, key_le, entry_text, canonical_json, canonical_elements, canonical_members,
  build_governance_decision_hash,
}

-- The values are the same up to the order of different keys, in objects at any depth.
mutual
  pub data Reordered : Json → Json → Type 0 where
    same : (v : Json) → Reordered v v
    arrays : (vs ws : Elements) → ReorderedElements vs ws → Reordered (array vs) (array ws)
    objects : (ms ns : Members) → ReorderedMembers ms ns → Reordered (object ms) (object ns)

  pub data ReorderedElements : Elements → Elements → Type 0 where
    end_of_elements : ReorderedElements no_element no_element
    next_element :
        (v w : Json) (vs ws : Elements)
        → Reordered v w
        → ReorderedElements vs ws
        → ReorderedElements (element v vs) (element w ws)

  pub data ReorderedMembers : Members → Members → Type 0 where
    end_of_members : ReorderedMembers no_member no_member
    next_member :
        (k : Text) (v w : Json) (ms ns : Members)
        → Reordered v w
        → ReorderedMembers ms ns
        → ReorderedMembers (member k v ms) (member k w ns)
    swapped :
        (k l : Text) (v w : Json) (ms : Members)
        → text_eq k l ≡ false
        → ReorderedMembers (member k v (member l w ms)) (member l w (member k v ms))
    then_too :
        (ms ns os : Members)
        → ReorderedMembers ms ns
        → ReorderedMembers ns os
        → ReorderedMembers ms os

key_total : (x y : Text × Text) → key_le x y ≡ false → key_le y x ≡ true
key_total (k, _) (l, _) h = text_le_total k l h

key_trans : (x y z : Text × Text) → key_le x y ≡ true → key_le y z ≡ true → key_le x z ≡ true
key_trans (k, _) (l, _) (m, _) h h' = text_le_trans k l m h h'

keys_differ :
    (k l s t : Text)
    → text_eq k l ≡ false
    → text_le k l ≡ true
    → text_le l k ≡ true
    → ◌≡◌ {A = Text × Text} (k, s) (l, t)
keys_differ k l s t apart h h' =
    let e = text_le_antisym k l h h' in
    absurd (cc (sym apart ∙ (ap (text_eq k) (sym e) ∙ text_eq_refl k)))

mutual
  unfolding canonical_json canonical_elements canonical_members

  canonical_json-Reordered :
      (stringify : Json → Text) (v w : Json)
      → Reordered v w
      → canonical_json stringify v ≡ canonical_json stringify w
  canonical_json-Reordered stringify v w (same _) = refl
  canonical_json-Reordered stringify v w (arrays vs ws h) =
      ap (λ ts. codes "[" ++ join ts ++ codes "]") (canonical_elements-Reordered stringify vs ws h)
  canonical_json-Reordered stringify v w (objects ms ns h) =
      ap (λ es. codes "{" ++ join (map (entry_text stringify) es) ++ codes "}")
        (canonical_members-Reordered stringify ms ns h)

  canonical_elements-Reordered :
      (stringify : Json → Text) (vs ws : Elements)
      → ReorderedElements vs ws
      → canonical_elements stringify vs ≡ canonical_elements stringify ws
  canonical_elements-Reordered stringify _ _ end_of_elements = refl
  canonical_elements-Reordered stringify _ _ (next_element v w vs ws h hs) =
      rw (canonical_json-Reordered stringify v w h, canonical_elements-Reordered stringify vs ws hs)
        refl

  canonical_members-Reordered :
      (stringify : Json → Text) (ms ns : Members)
      → ReorderedMembers ms ns
      → sorted key_le (canonical_members stringify ms)
        ≡ sorted key_le (canonical_members stringify ns)
  canonical_members-Reordered stringify _ _ end_of_members = refl
  canonical_members-Reordered stringify _ _ (next_member k v w ms ns h hs) =
      ap (λ t. insert_sorted key_le (k, t) (sorted key_le (canonical_members stringify ms)))
        (canonical_json-Reordered stringify v w h)
      ∙ ap (insert_sorted key_le (k, canonical_json stringify w))
          (canonical_members-Reordered stringify ms ns hs)
  canonical_members-Reordered stringify _ _ (swapped k l v w ms apart) =
      insert_swap key_le key_total key_trans (k, canonical_json stringify v)
        (l, canonical_json stringify w)
        (keys_differ k l (canonical_json stringify v) (canonical_json stringify w) apart)
        (sorted key_le (canonical_members stringify ms))
  canonical_members-Reordered stringify _ _ (then_too ms ns os h h') =
      canonical_members-Reordered stringify ms ns h ∙ canonical_members-Reordered stringify ns os h'

-- Payloads that differ only in the order of different keys, in objects at any depth, have the same
-- decision hash.
pub build_governance_decision_hash-Reordered :
    (sha256 : Text → Text) (stringify : Json → Text) (v w : Json)
    → Reordered v w
    → build_governance_decision_hash sha256 stringify v
      ≡ build_governance_decision_hash sha256 stringify w
unfolding build_governance_decision_hash
build_governance_decision_hash-Reordered sha256 stringify v w h =
    ap sha256 (canonical_json-Reordered stringify v w h)
