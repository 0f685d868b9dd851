-- ===== src/Services/Hashing/Json.antt =====
-- app/services/hashing.py: the JSON texts of `json.dumps`, read from the left.
use jarvis_skill_registry.Prelude.{
  ℕ, ◌/◌, ◌^◌, ◌≡◌, refl, sym, ap, ◌∙◌, subst, Text, codes, ltb, ◌==◌, ==_iff, true, false, Option,
  none, some, List, [], ◌∷◌, ◌++◌, if◌then◌else◌, Bool-cases, inl, inr, arith,
}
use mathlib.Core.List.{append_assoc}
use jarvis_skill_registry.Services.Hashing.{
  hex_digits, escape, escape_all, json_string, json_rest, json_strings,
}
use jarvis_skill_registry.Services.Hashing.Hex.{read_hex, read_hex-hex_digits}

-- What follows a backslash: the character, and the text behind it.
unescape_mark : Text → Option (ℕ × Text)
unescape_mark [] = none
unescape_mark (d ∷ s) =
    if d == b'n'
    then some (10, s)
    else if d == b'r'
    then some (13, s)
    else if d == b't'
    then some (9, s)
    else if d == b'f'
    then some (12, s)
    else if d == b'b'
    then some (8, s)
    else if d == b'u'
    then elim s [ h ∷ i ∷ j ∷ k ∷ t ↦ some (read_hex 0 (h ∷ i ∷ j ∷ k ∷ []), t) | _ ↦ none ]
    else some (d, s)

-- The first character of the inside of a JSON string; none at the quote.
unescape : Text → Option (ℕ × Text)
unescape [] = none
unescape (c ∷ s) = if c == 34 then none else if c == 92 then unescape_mark s else some (c, s)

no_higher : (c : ℕ) → ltb c 32 ≡ true → 0 ≡ c / 16 ^ 4
no_higher c h = ground arith

module _ (s : Text) where
  -- Where the character is this one.
  at :
      (k c : ℕ)
      → unescape (escape k ++ s) ≡ some (k, s)
      → (c == k) ≡ true
      → unescape (escape c ++ s) ≡ some (c, s)
  at k c h e = subst (λ x. unescape (escape x ++ s) ≡ some (x, s)) (sym ((==_iff c k).0 e)) h

  -- A character of no short escape: a control character by its number, another one by itself.
  unescape-plain :
      (c : ℕ)
      → (c == 34) ≡ false
      → (c == 92) ≡ false
      → (c == 10) ≡ false
      → (c == 13) ≡ false
      → (c == 9) ≡ false
      → (c == 12) ≡ false
      → (c == 8) ≡ false
      → unescape (escape c ++ s) ≡ some (c, s)
  unfolding escape unescape unescape_mark hex_digits
  unescape-plain c quote backslash newline return tab feed back = elim (Bool-cases (ltb c 32)) [
    | inl control ↦
        rw (quote, backslash, newline, return, tab, feed, back, control)
          (ap (λ n. some (n, s))
            (ap (λ higher. read_hex higher (hex_digits 4 c)) (no_higher c control)
              ∙ read_hex-hex_digits 4 c))
    | inr printed ↦
        rw (quote, backslash, newline, return, tab, feed, back, printed, quote, backslash) refl
  ]

  unescape-escape : (c : ℕ) → unescape (escape c ++ s) ≡ some (c, s)
  unfolding escape unescape unescape_mark
  unescape-escape c = elim (Bool-cases (c == 34)) [
    | inl e ↦ at 34 c refl e
    | inr quote ↦ elim (Bool-cases (c == 92)) [
      | inl e ↦ at 92 c refl e
      | inr backslash ↦ elim (Bool-cases (c == 10)) [
        | inl e ↦ at 10 c refl e
        | inr newline ↦ elim (Bool-cases (c == 13)) [
          | inl e ↦ at 13 c refl e
          | inr return ↦ elim (Bool-cases (c == 9)) [
            | inl e ↦ at 9 c refl e
            | inr tab ↦ elim (Bool-cases (c == 12)) [
              | inl e ↦ at 12 c refl e
              | inr feed ↦ elim (Bool-cases (c == 8)) [
                | inl e ↦ at 8 c refl e
                | inr back ↦ unescape-plain c quote backslash newline return tab feed back
              ]
            ]
          ]
        ]
      ]
    ]
  ]

  no_quote : (c : ℕ) (t : Text) → escape c ++ s ≡ 34 ∷ t → ⊥
  unfolding unescape
  no_quote c t e = some-none (sym (unescape-escape c) ∙ ap unescape e)
    where
      some-none : ◌≡◌ {A = Option (ℕ × Text)} (some (c, s)) none → ⊥
      some-none h = cc

pub cancel : (a : Text) {x y : Text} → a ++ x ≡ a ++ y → x ≡ y
cancel [] e = e
cancel (c ∷ a) e = cancel a (tail e)
  where
    tail : {p q : Text} → c ∷ p ≡ c ∷ q → p ≡ q
    tail e' = cc

first_unique : (c d : ℕ) (s t : Text) → escape c ++ s ≡ escape d ++ t → (c ≡ d) × (s ≡ t)
first_unique c d s t e = parts (sym (unescape-escape s c) ∙ ap unescape e ∙ unescape-escape t d)
  where
    parts : ◌≡◌ {A = Option (ℕ × Text)} (some (c, s)) (some (d, t)) → (c ≡ d) × (s ≡ t)
    parts h = (cc, cc)

apart : (c d : ℕ) {s t : Text} → (c == d) ≡ false → c ∷ s ≡ d ∷ t → ⊥
apart c d h e = let same : c ≡ d = cc in absurd (ground arith)

-- The inside of a string ends at its quote.
escape_all-cancel :
    (a b : Text) {x y : Text}
    → escape_all a ++ (34 ∷ x) ≡ escape_all b ++ (34 ∷ y)
    → (a ≡ b) × (x ≡ y)
unfolding escape_all
escape_all-cancel [] [] e = (refl, cancel (34 ∷ []) e)
escape_all-cancel [] (d ∷ b) {x} {y} e = absurd (
    no_quote (escape_all b ++ (34 ∷ y)) d x
      (sym (e ∙ append_assoc (escape d) (escape_all b) (34 ∷ y))))
escape_all-cancel (c ∷ a) [] {x} {y} e = absurd (
    no_quote (escape_all a ++ (34 ∷ x)) c y
      (sym (append_assoc (escape c) (escape_all a) (34 ∷ x)) ∙ e))
escape_all-cancel (c ∷ a) (d ∷ b) {x} {y} e =
    let (first, others) = first_unique c d (escape_all a ++ (34 ∷ x)) (escape_all b ++ (34 ∷ y)) (
      sym (append_assoc (escape c) (escape_all a) (34 ∷ x))
      ∙ e
      ∙ append_assoc (escape d) (escape_all b) (34 ∷ y)) in
    let (same, behind) = escape_all-cancel a b others in (cc, behind)

pub json_string-cancel :
    (a b : Text) {x y : Text} → json_string a ++ x ≡ json_string b ++ y → (a ≡ b) × (x ≡ y)
unfolding json_string
json_string-cancel a b {x} {y} e = escape_all-cancel a b (
    sym (append_assoc (escape_all a) (34 ∷ []) x)
    ∙ cancel (34 ∷ []) e
    ∙ append_assoc (escape_all b) (34 ∷ []) y)

json_rest-cancel :
    (a b : List Text) {x y : Text}
    → json_rest a ++ (93 ∷ x) ≡ json_rest b ++ (93 ∷ y)
    → (a ≡ b) × (x ≡ y)
unfolding json_rest
json_rest-cancel [] [] e = (refl, cancel (93 ∷ []) e)
json_rest-cancel [] (t ∷ b) e = absurd (apart 93 44 refl e)
json_rest-cancel (s ∷ a) [] e = absurd (apart 44 93 refl e)
json_rest-cancel (s ∷ a) (t ∷ b) {x} {y} e =
    let (first, others) = json_string-cancel s t (
      sym (append_assoc (json_string s) (json_rest a) (93 ∷ x))
      ∙ cancel (44 ∷ []) e
      ∙ append_assoc (json_string t) (json_rest b) (93 ∷ y)) in
    let (same, behind) = json_rest-cancel a b others in (cc, behind)

pub json_strings-cancel :
    (a b : List Text) {x y : Text} → json_strings a ++ x ≡ json_strings b ++ y → (a ≡ b) × (x ≡ y)
unfolding json_strings
json_strings-cancel [] [] e = (refl, cancel (codes "[]") e)
json_strings-cancel [] (t ∷ b) e = absurd (apart 93 34 refl (cancel (91 ∷ []) e))
json_strings-cancel (s ∷ a) [] e = absurd (apart 34 93 refl (cancel (91 ∷ []) e))
json_strings-cancel (s ∷ a) (t ∷ b) {x} {y} e =
    let (first, others) =
      json_string-cancel s t (sym (opened s a x) ∙ cancel (91 ∷ []) e ∙ opened t b y) in
    let (same, behind) = json_rest-cancel a b others in (cc, behind)
  where
    opened :
        (u : Text) (l : List Text) (z : Text)
        → (json_string u ++ (json_rest l ++ 93 ∷ [])) ++ z
          ≡ json_string u ++ (json_rest l ++ (93 ∷ z))
    opened u l z =
        append_assoc (json_string u) (json_rest l ++ 93 ∷ []) z
        ∙ ap (λ m. json_string u ++ m) (append_assoc (json_rest l) (93 ∷ []) z)
