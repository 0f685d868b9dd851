-- ===== src/Services/Hashing.antt =====
-- app/services/hashing.py: the canonical payload of a version, its JSON text and its hash. The
-- digest of SHA-256 is a parameter.
pub mod Hex
pub mod Json
pub mod Injective
use jarvis_skill_registry.Prelude.{
  ℕ, zero, suc, ◌+◌, ◌/◌, ◌%◌, ◌^◌, Text, codes, ltb, ◌==◌, List, [], ◌∷◌, ◌++◌, if◌then◌else◌,
}
use jarvis_skill_registry.Prelude.Sorting.{sort_by, insert, text_leb}
use jarvis_skill_registry.Models.{Uuid}

abbrev pub hex_digit : ℕ → ℕ
hex_digit d = if ltb d 10 then 48 + d else 87 + d

-- The lowest `k` hexadecimal digits, the highest of them first.
unfoldable pub hex_digits : ℕ → ℕ → Text
hex_digits zero n = []
hex_digits (suc k) n = hex_digits k (n / 16) ++ hex_digit (n % 16) ∷ []

-- `str(uuid)` of a 128-bit number: 8-4-4-4-12.
unfoldable pub uuid_text : Uuid → Text
unfolding hex_digits
uuid_text n =
    hex_digits 8 (n / 2 ^ 96)
    ++ (45 ∷ hex_digits 4 (n / 2 ^ 80))
    ++ (45 ∷ hex_digits 4 (n / 2 ^ 64))
    ++ (45 ∷ hex_digits 4 (n / 2 ^ 48))
    ++ (45 ∷ hex_digits 12 n)

pub decimal_from : ℕ → ℕ → Text
decimal_from zero n = []
decimal_from (suc fuel) n =
    let more = decimal_from fuel (n / 10) ++ (48 + n % 10) ∷ [] in
    if ltb n 10 then (48 + n) ∷ [] else more

-- `str(n)`: a number has at most as many digits as its successor counts.
unfoldable pub decimal : ℕ → Text
unfolding decimal_from
decimal n = decimal_from (suc n) n

-- One character of a JSON string under `ensure_ascii=False`.
unfoldable pub escape : ℕ → Text
unfolding hex_digits
escape c =
    if c == 34
    then 92 ∷ 34 ∷ []
    else if c == 92
    then 92 ∷ 92 ∷ []
    else if c == 10
    then 92 ∷ b'n' ∷ []
    else if c == 13
    then 92 ∷ b'r' ∷ []
    else if c == 9
    then 92 ∷ b't' ∷ []
    else if c == 12
    then 92 ∷ b'f' ∷ []
    else if c == 8
    then 92 ∷ b'b' ∷ []
    else if ltb c 32
    then 92 ∷ b'u' ∷ hex_digits 4 c
    else c ∷ []

unfoldable pub escape_all : Text → Text
unfolding escape
escape_all [] = []
escape_all (c ∷ s) = escape c ++ escape_all s

unfoldable pub json_string : Text → Text
unfolding escape_all
json_string s = 34 ∷ (escape_all s ++ 34 ∷ [])

-- The elements after the first, each behind its comma.
unfoldable pub json_rest : List Text → Text
unfolding json_string
json_rest [] = []
json_rest (s ∷ ss) = 44 ∷ (json_string s ++ json_rest ss)

unfoldable pub json_strings : List Text → Text
unfolding json_rest json_string
json_strings [] = codes "[]"
json_strings (s ∷ ss) = 91 ∷ (json_string s ++ (json_rest ss ++ 93 ∷ []))

-- The values of `canonical_version_payload`.
pub record VersionPayload : Type 0 where
  pub organization_id : Text
  pub skill_id : Text
  pub version_number : ℕ
  pub prompt_body : Text
  pub requested_tools : List Text

unfoldable pub canonical_version_payload : Uuid → Uuid → ℕ → Text → List Text → VersionPayload
unfolding uuid_text sort_by insert text_leb
canonical_version_payload organization_id skill_id version_number prompt_body requested_tools =
    record {
      organization_id = uuid_text organization_id;
      skill_id = uuid_text skill_id;
      version_number = version_number;
      prompt_body = prompt_body;
      requested_tools = sort_by text_leb requested_tools;
    }

-- `json.dumps(payload, sort_keys=True, separators=(",", ":"), ensure_ascii=False)`
unfoldable pub canonical_json : VersionPayload → Text
unfolding json_string json_strings decimal
canonical_json p =
    codes "{\"organization_id\":"
    ++ json_string p.organization_id
    ++ codes ",\"prompt_body\":"
    ++ json_string p.prompt_body
    ++ codes ",\"requested_tools\":"
    ++ json_strings p.requested_tools
    ++ codes ",\"skill_id\":"
    ++ json_string p.skill_id
    ++ codes ",\"version_number\":"
    ++ decimal p.version_number
    ++ codes "}"

module _ (sha256 : Text → Text) where
  unfoldable pub content_hash : VersionPayload → Text
  unfolding canonical_json
  content_hash payload = sha256 (canonical_json payload)

  unfoldable pub hash_version : Uuid → Uuid → ℕ → Text → List Text → Text
  unfolding content_hash canonical_version_payload
  hash_version organization_id skill_id version_number prompt_body requested_tools = content_hash (
      canonical_version_payload organization_id skill_id version_number prompt_body requested_tools)
