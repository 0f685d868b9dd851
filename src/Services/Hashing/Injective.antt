-- ===== src/Services/Hashing/Injective.antt =====
-- app/services/hashing.py: canonical texts and hashes against what they are of.
use jarvis_skill_registry.Prelude.{
  ℕ, zero, suc, ◌+◌, ◌-◌, ◌*◌, ◌/◌, ◌%◌, ◌^◌, ◌<◌, ◌≡◌, refl, sym, ap, ◌∙◌, Text, codes, ltb, ◌==◌,
  false, List, [], ◌∷◌, ◌++◌, if◌then◌else◌, Bool-cases, inl, inr, arith,
}
use jarvis_skill_registry.Prelude.Sorting.{sort_by, text_leb}
use jarvis_skill_registry.Models.{Uuid}
use mathlib.Core.List.{append_assoc}
use jarvis_skill_registry.Services.Hashing.{
  decimal_from, decimal, json_string, json_strings, uuid_text, VersionPayload,
  canonical_version_payload, canonical_json, content_hash, hash_version,
}
use jarvis_skill_registry.Services.Hashing.Hex.{read_hex, read_hex-uuid_text}
use jarvis_skill_registry.Services.Hashing.Json.{cancel, json_string-cancel, json_strings-cancel}

-- The number of the decimal digits before a closing brace, behind `acc`.
read_decimal : ℕ → Text → ℕ
read_decimal acc [] = acc
read_decimal acc (c ∷ s) =
    let more = read_decimal (10 * acc + (c - 48)) s in if c == 125 then acc else more

read_decimal-digit :
    (acc d : ℕ) (s : Text)
    → d < 10
    → read_decimal acc ((48 + d) ∷ s) ≡ read_decimal (10 * acc + d) s
unfolding read_decimal
read_decimal-digit acc d s h =
    let digit : (48 + d == 125) ≡ false = ground arith in
    let value : 48 + d - 48 ≡ d = omega arith in rw (digit, value) refl

read_decimal-decimal_from :
    (fuel n : ℕ) (t : Text)
    → n < fuel
    → read_decimal 0 (decimal_from fuel n ++ t) ≡ read_decimal n t
unfolding decimal_from
read_decimal-decimal_from zero n t h = absurd (omega arith)
read_decimal-decimal_from (suc fuel) n t h =
    let rest = read_decimal-decimal_from fuel (n / 10) in
    elim (Bool-cases (ltb n 10)) [
      | inl one_digit ↦
          rw one_digit
            (read_decimal-digit 0 n t (ground arith) ∙ ap (λ m. read_decimal m t) (omega arith))
      | inr more ↦ rw more (
          ap (read_decimal 0) (append_assoc (decimal_from fuel (n / 10)) ((48 + n % 10) ∷ []) t)
          ∙ rest ((48 + n % 10) ∷ t) (ground arith)
          ∙ read_decimal-digit (n / 10) (n % 10) t (omega arith)
          ∙ ap (λ m. read_decimal m t) (omega arith))
    ]

decimal-cancel : (m n : ℕ) → decimal m ++ codes "}" ≡ decimal n ++ codes "}" → m ≡ n
unfolding decimal read_decimal
decimal-cancel m n e =
    sym (read_decimal-decimal_from (suc m) m (codes "}") (omega arith))
    ∙ ap (read_decimal 0) e
    ∙ read_decimal-decimal_from (suc n) n (codes "}") (omega arith)

-- The text from the left.
opened :
    (a b c d e f g h i j k : Text)
    → a ++ b ++ c ++ d ++ e ++ f ++ g ++ h ++ i ++ j ++ k
      ≡ a ++ (b ++ (c ++ (d ++ (e ++ (f ++ (g ++ (h ++ (i ++ (j ++ k)))))))))
opened a b c d e f g h i j k = simp append_assoc refl

keyed : VersionPayload → Text
keyed p =
    codes "{\"organization_id\":"
    ++ (json_string p.organization_id
        ++ (codes ",\"prompt_body\":"
            ++ (json_string p.prompt_body
                ++ (codes ",\"requested_tools\":"
                    ++ (json_strings p.requested_tools
                        ++ (codes ",\"skill_id\":"
                            ++ (json_string p.skill_id
                                ++ (codes ",\"version_number\":"
                                    ++ (decimal p.version_number ++ codes "}")))))))))

canonical_json-keyed : (p : VersionPayload) → canonical_json p ≡ keyed p
unfolding canonical_json keyed
canonical_json-keyed p =
    opened (codes "{\"organization_id\":") (json_string p.organization_id)
      (codes ",\"prompt_body\":") (json_string p.prompt_body) (codes ",\"requested_tools\":")
      (json_strings p.requested_tools) (codes ",\"skill_id\":") (json_string p.skill_id)
      (codes ",\"version_number\":") (decimal p.version_number) (codes "}")

-- Payloads with the same JSON text are the same.
pub canonical_json-injective : (p q : VersionPayload) → canonical_json p ≡ canonical_json q → p ≡ q
unfolding keyed
canonical_json-injective p q e =
    let whole = sym (canonical_json-keyed p) ∙ e ∙ canonical_json-keyed q in
    let (organization, after_organization) =
      json_string-cancel p.organization_id q.organization_id
        (cancel (codes "{\"organization_id\":") whole) in
    let (prompt, after_prompt) =
      json_string-cancel p.prompt_body q.prompt_body
        (cancel (codes ",\"prompt_body\":") after_organization) in
    let (tools, after_tools) =
      json_strings-cancel p.requested_tools q.requested_tools
        (cancel (codes ",\"requested_tools\":") after_prompt) in
    let (skill, after_skill) =
      json_string-cancel p.skill_id q.skill_id (cancel (codes ",\"skill_id\":") after_tools) in
    let number =
      decimal-cancel p.version_number q.version_number
        (cancel (codes ",\"version_number\":") after_skill) in
    cc

-- Two versions with one content hash are the same in all that the hash covers: organization, skill,
-- number, prompt and the requested tools in order; if the digest does not collide on their texts
-- and the ids have 128 bits.
pub hash_version-injective :
    (sha256 : Text → Text) (org org' skill skill' n n' : ℕ) (prompt prompt' : Text)
    (tools tools' : List Text)
    → (sha256 (canonical_json (canonical_version_payload org skill n prompt tools))
          ≡ sha256 (canonical_json (canonical_version_payload org' skill' n' prompt' tools'))
        → canonical_json (canonical_version_payload org skill n prompt tools)
          ≡ canonical_json (canonical_version_payload org' skill' n' prompt' tools'))
    → org < 2 ^ 128
    → org' < 2 ^ 128
    → skill < 2 ^ 128
    → skill' < 2 ^ 128
    → hash_version sha256 org skill n prompt tools
      ≡ hash_version sha256 org' skill' n' prompt' tools'
    → (org ≡ org')
      × (skill ≡ skill')
      × (n ≡ n')
      × (prompt ≡ prompt')
      × (sort_by text_leb tools ≡ sort_by text_leb tools')
unfolding hash_version content_hash canonical_version_payload
hash_version-injective sha256 org org' skill skill' n n' prompt prompt' tools tools' no_collision o
      o' s s' same =
    let payload = canonical_json-injective _ _ (no_collision same) in
    (
      uuid_text-injective org org' o o' (ap (λ x. x.organization_id) payload),
      uuid_text-injective skill skill' s s' (ap (λ x. x.skill_id) payload),
      ap (λ x. x.version_number) payload,
      ap (λ x. x.prompt_body) payload,
      ap (λ x. x.requested_tools) payload,
    )
  where
    uuid_text-injective :
        (a b : Uuid) → a < 2 ^ 128 → b < 2 ^ 128 → uuid_text a ≡ uuid_text b → a ≡ b
    uuid_text-injective a b ha hb e =
        sym (read_hex-uuid_text a ha) ∙ ap (read_hex 0) e ∙ read_hex-uuid_text b hb
