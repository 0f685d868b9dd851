-- ===== src/Samples/Tokens.antt =====
-- A concrete `Security` for the runs: tokens that are their claims written out, passwords that are
-- their own hashes, and UUIDs read digit by digit.
use jarvis_skill_registry.Prelude.{
  ℕ, zero, suc, ◌≡◌, refl, ap, Text, text_eq, Option, none, some, [], ◌∷◌, ◌++◌, codes,
}
use jarvis_skill_registry.Prelude.Tables.{take, length}
use jarvis_skill_registry.Services.Hashing.Hex.{read_hex, read_hex-uuid_text}
use jarvis_skill_registry.Core.Security.{Security, Claims, IsSound}
use jarvis_skill_registry.Samples.{ascii_lower}
use jarvis_skill_registry.Prelude.{map}

-- A text behind its length.
put : Text → Text → Text
put s rest = length s ∷ (s ++ rest)

put_option : Option Text → Text → Text
put_option none rest = 0 ∷ rest
put_option (some s) rest = suc (length s) ∷ (s ++ rest)

drop : ℕ → Text → Text
drop zero l = l
drop (suc n) [] = []
drop (suc n) (c ∷ l) = drop n l

get : Text → Text × Text
get [] = ([], [])
get (n ∷ l) = (take n l, drop n l)

get_option : Text → Option Text × Text
get_option [] = (none, [])
get_option (zero ∷ l) = (none, l)
get_option (suc n ∷ l) = (some (take n l), drop n l)

take-length : (s rest : Text) → take (length s) (s ++ rest) ≡ s
unfolding take
take-length [] rest = refl
take-length (c ∷ s) rest = ap (λ l. c ∷ l) (take-length s rest)

drop-length : (s rest : Text) → drop (length s) (s ++ rest) ≡ rest
unfolding drop
drop-length [] rest = refl
drop-length (c ∷ s) rest = drop-length s rest

get_option-put_option : (o : Option Text) (rest : Text) → get_option (put_option o rest) ≡ (o, rest)
unfolding get_option put_option
get_option-put_option none rest = refl
get_option-put_option (some s) rest = rw (take-length s rest, drop-length s rest) refl

pub encode : Claims → Text
unfolding put put_option
encode claims =
    claims.iat
    ∷ claims.exp
    ∷ put_option claims.sub (put_option claims.org (put claims.role (put claims.jti [])))

pub decode : Text → Option Claims
unfolding get get_option
decode (iat ∷ exp ∷ l) =
    let (sub, l1) = get_option l in
    let (org, l2) = get_option l1 in
    let (role, l3) = get l2 in
    some (record { sub = sub; org = org; role = role; iat = iat; exp = exp; jti = (get l3).0 })
decode _ = none

decode-encode : (claims : Claims) → decode (encode claims) ≡ some claims
unfolding decode encode
decode-encode claims =
    rw
      (
        get_option-put_option claims.sub
            (put_option claims.org (put claims.role (put claims.jti []))),
        get_option-put_option claims.org (put claims.role (put claims.jti [])),
        take-length claims.role (length claims.jti ∷ (claims.jti ++ [])),
        drop-length claims.role (length claims.jti ∷ (claims.jti ++ [])),
        take-length claims.jti [],
      )
      refl

abbrev pub security : Security
security = record {
  jwt_encode = encode;
  jwt_decode = λ now token. decode token;
  hash = λ salt plain. plain;
  verify = λ plain hashed. some (text_eq plain hashed);
  parse_uuid = λ t. some (read_hex 0 t);
  sql_lower = map ascii_lower;
  timestamp = λ t. t;
  jwt_expire_minutes = 30;
  seed_password = codes "x";
}

pub security-IsSound : IsSound security
unfolding encode
security-IsSound = record {
  decode_encode = λ claims now begun lasting. decode-encode claims;
  parse_text = λ id small. ap some (read_hex-uuid_text id small);
  token_is_given = λ claims. refl;
}
