-- ===== src/Json.antt =====
-- The parsed JSON values that packages/deeprun-backend/src/agent/correction/policy-engine.ts and
-- governance/decision.ts read.
use deeprun.Prelude.{ℕ, Bool, List, [], ◌∷◌, Option, none, some, Text, text_eq, if◌then◌else◌}

-- A number is given by a name for it.
mutual
  pub data Json : Type 0 where
    null : Json
    boolean : Bool → Json
    number : ℕ → Json
    string : Text → Json
    array : Elements → Json
    object : Members → Json

  pub data Elements : Type 0 where
    no_element : Elements
    element : Json → Elements → Elements

  pub data Members : Type 0 where
    no_member : Members
    member : Text → Json → Members → Members

-- `record[key]`, where `none` is undefined.
unfoldable pub get : Text → Members → Option Json
get key no_member = none
get key (member k v ms) = if text_eq k key then some v else get key ms

-- `record?.[key]`.
abbrev pub get_in : Text → Option Members → Option Json
get_in key none = none
get_in key (some fields) = get key fields

abbrev pub to_list : Elements → List Json
to_list no_element = []
to_list (element v vs) = v ∷ to_list vs

-- `toRecord`: an object that is no array.
abbrev pub to_record : Option Json → Option Members
to_record (some (object ms)) = some ms
to_record _ = none

-- `Array.isArray(value) ? value : []`.
abbrev pub to_entries : Option Json → List Json
to_entries (some (array vs)) = to_list vs
to_entries _ = []

-- `typeof value === "string" ? value : ""`.
abbrev pub string_or_empty : Option Json → Text
string_or_empty (some (string s)) = s
string_or_empty _ = []
