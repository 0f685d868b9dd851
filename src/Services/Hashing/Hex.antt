-- ===== src/Services/Hashing/Hex.antt =====
-- app/services/hashing.py: the hexadecimal text of a UUID, read back.
use jarvis_skill_registry.Prelude.{
  ℕ, zero, suc, ◌+◌, ◌-◌, ◌*◌, ◌/◌, ◌%◌, ◌^◌, ◌<◌, ◌≡◌, refl, sym, ap, ◌∙◌, Text, ltb, ◌==◌, [],
  ◌∷◌, ◌++◌, if◌then◌else◌, arith, false, Bool-cases, inl, inr,
}
use jarvis_skill_registry.Models.{Uuid}
use native.Mathlib.Nat.{div-div-eq-div-mul, pow-succ'}
use jarvis_skill_registry.Services.Hashing.{hex_digit, hex_digits, uuid_text}

abbrev digit_value : ℕ → ℕ
digit_value c = if ltb c 58 then c - 48 else c - 87

-- The number of a text of hexadecimal digits behind `acc`; dashes are skipped.
pub read_hex : ℕ → Text → ℕ
read_hex acc [] = acc
read_hex acc (c ∷ s) =
    let skipped = read_hex acc s in
    let read = read_hex (16 * acc + digit_value c) s in if c == 45 then skipped else read

digit_value-hex_digit : (d : ℕ) → d < 16 → digit_value (hex_digit d) ≡ d
digit_value-hex_digit d h = ground arith

hex_digit-no_dash : (d : ℕ) → d < 16 → (hex_digit d == 45) ≡ false
hex_digit-no_dash d h = ground arith

read_hex-digit :
    (acc d : ℕ) (s : Text) → d < 16 → read_hex acc (hex_digit d ∷ s) ≡ read_hex (16 * acc + d) s
unfolding read_hex
read_hex-digit acc d s h = rw (hex_digit-no_dash d h, digit_value-hex_digit d h) refl

read_hex-append : (acc : ℕ) (s t : Text) → read_hex acc (s ++ t) ≡ read_hex (read_hex acc s) t
unfolding read_hex
read_hex-append acc [] t = refl
read_hex-append acc (c ∷ s) t =
    let skipped = read_hex-append acc s t in
    let read = read_hex-append (16 * acc + digit_value c) s t in
    elim (Bool-cases (c == 45)) [ inl dash ↦ rw dash skipped | inr digit ↦ rw digit read ]

higher_digits : (n k : ℕ) → n / 16 ^ suc k ≡ n / 16 / 16 ^ k
higher_digits n k = ap (λ x. n / x) (pow-succ' 16 k) ∙ sym (div-div-eq-div-mul n 16 (16 ^ k))

-- Behind the number of the higher digits, the lowest `k` digits of `n` read as `n`.
pub read_hex-hex_digits : (k n : ℕ) → read_hex (n / 16 ^ k) (hex_digits k n) ≡ n
unfolding read_hex hex_digits
read_hex-hex_digits zero n = ground arith
read_hex-hex_digits (suc k) n =
    read_hex-append (n / 16 ^ suc k) (hex_digits k (n / 16)) (hex_digit (n % 16) ∷ [])
    ∙ ap (λ x. read_hex x (hex_digit (n % 16) ∷ []))
        (ap (λ x. read_hex x (hex_digits k (n / 16))) (higher_digits n k)
          ∙ read_hex-hex_digits k (n / 16))
    ∙ read_hex-digit (n / 16) (n % 16) [] (omega arith)
    ∙ omega arith

-- One more group of digits, behind its dash.
group :
    (k n higher : ℕ) (s : Text)
    → read_hex 0 s ≡ higher
    → n / 16 ^ k ≡ higher
    → read_hex 0 (s ++ (45 ∷ hex_digits k n)) ≡ n
unfolding read_hex
group k n higher s before h =
    read_hex-append 0 s (45 ∷ hex_digits k n)
    ∙ ap (λ x. read_hex x (hex_digits k n)) (before ∙ sym h)
    ∙ read_hex-hex_digits k n

-- The text of a UUID of 128 bits reads back as it.
pub read_hex-uuid_text : (n : Uuid) → n < 2 ^ 128 → read_hex 0 (uuid_text n) ≡ n
unfolding uuid_text
read_hex-uuid_text n small =
    let first : read_hex 0 (hex_digits 8 (n / 2 ^ 96)) ≡ n / 2 ^ 96 =
      ap (λ x. read_hex x (hex_digits 8 (n / 2 ^ 96))) (top (n / 2 ^ 96) (omega arith))
      ∙ read_hex-hex_digits 8 (n / 2 ^ 96) in
    group 12 n (n / 2 ^ 48) _
      (group 4 (n / 2 ^ 48) (n / 2 ^ 64) _
        (group 4 (n / 2 ^ 64) (n / 2 ^ 80) _
          (group 4 (n / 2 ^ 80) (n / 2 ^ 96) _ first (div-div-eq-div-mul n (2 ^ 80) (16 ^ 4)))
          (div-div-eq-div-mul n (2 ^ 64) (16 ^ 4)))
        (div-div-eq-div-mul n (2 ^ 48) (16 ^ 4)))
      refl
  where
    top : (m : ℕ) → m < 2 ^ 32 → 0 ≡ m / 16 ^ 8
    top m h = omega arith
