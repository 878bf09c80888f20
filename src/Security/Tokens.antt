-- ===== src/Security/Tokens.antt =====
-- create_token and verify_token, with `_b64url` and `_b64url_decode`.
use knowledge_flywheel.Base.{
  ℕ, zero, suc, ◌+◌, ◌-◌, ◌%◌, String, Option, none, some, List, [], ◌∷◌, ◌++◌, ltb, ◌==◌,
  if◌then◌else◌, keep, length,
}
use mathlib.Core.List.{reverse}
use knowledge_flywheel.Config.{Settings}
use knowledge_flywheel.Parse.Split.{Text}
use knowledge_flywheel.Overrides.Settings.{codes, text_eq}
use knowledge_flywheel.Security.Keys.{is_role}

pub record Claims : Type 0 where
  pub sub : String
  pub roles : List String
  pub iat : ℕ
  pub exp : ℕ

-- What the module takes from Python: `base64.urlsafe_b64encode` and its inverse, `json.dumps` of the
-- claims and `json.loads` (none where they raise), and HMAC-SHA256 of a key and a message.
pub record Crypto : Type 0 where
  pub encode : Text → Text
  pub decode : Text → Option Text
  pub dumps : Claims → Text
  pub loads : Text → Option Claims
  pub sign : Text → Text → Text

-- The code points of "." and "=".
abbrev pub dot : ℕ
dot = 46

abbrev pub equals_sign : ℕ
equals_sign = 61

unfoldable pub drop_signs : Text → Text
drop_signs [] = []
drop_signs (c ∷ cs) = let rest = drop_signs cs in if c == equals_sign then rest else c ∷ cs

-- `.rstrip(b"=")`
unfoldable pub strip_signs : Text → Text
unfolding drop_signs
strip_signs s = reverse (drop_signs (reverse s))

unfoldable pub signs : ℕ → Text
signs zero = []
signs (suc n) = equals_sign ∷ signs n

-- `_b64url`
unfoldable pub b64url : Crypto → Text → Text
unfolding strip_signs
b64url crypto bytes = strip_signs (crypto.encode bytes)

-- `value + "=" * (-len(value) % 4)`
unfoldable pub padded : Text → Text
unfolding signs
padded value = value ++ signs ((4 - length value % 4) % 4)

-- `_b64url_decode`
unfoldable pub b64url_decode : Crypto → Text → Option Text
unfolding padded
b64url_decode crypto value = crypto.decode (padded value)

-- `_signing_key`
abbrev pub signing_key : Settings → Text
signing_key s = elim (codes s.security_secret) [
  | [] ↦ codes "knowledge-hub-insecure-dev-secret"
  | c ∷ cs ↦ c ∷ cs
]

-- `json.dumps(header, separators=...)`
abbrev pub header_json : Text
header_json = codes "{\"alg\":\"HS256\",\"typ\":\"JWT\"}"

unfoldable pub claims_of : Settings → ℕ → String → List String → Option ℕ → Claims
claims_of s now principal wanted ttl_seconds = record {
  sub = principal;
  roles = keep is_role wanted;
  iat = now;
  exp = now + elim ttl_seconds [ none ↦ s.jwt_ttl_seconds | some ttl ↦ ttl ];
}

unfoldable pub signing_input : Crypto → Claims → Text
unfolding b64url
signing_input crypto claims = b64url crypto header_json ++ dot ∷ b64url crypto (crypto.dumps claims)

-- `create_token`; the time is in seconds.
unfoldable pub create_token : Crypto → Settings → ℕ → String → List String → Option ℕ → Text
unfolding b64url signing_input claims_of
create_token crypto s now principal wanted ttl_seconds =
    let message = signing_input crypto (claims_of s now principal wanted ttl_seconds) in
    message ++ dot ∷ b64url crypto (crypto.sign (signing_key s) message)

-- `token.split(".")`: `part` is what has been read since the last dot.
unfoldable pub split_dots : Text → Text → List Text
split_dots part [] = part ∷ []
split_dots part (c ∷ cs) =
    let rest = split_dots (if c == dot then [] else part ++ c ∷ []) cs in
    if c == dot then part ∷ rest else rest

-- The last checks of `verify_token`, on the payload.
unfoldable pub current_claims : Crypto → ℕ → Text → Option Claims
unfolding b64url_decode
current_claims crypto now payload_b64 = elim (b64url_decode crypto payload_b64) [
  | none ↦ none
  | some payload ↦ elim (crypto.loads payload) [
    | none ↦ none
    | some claims ↦ if ltb claims.exp now then none else some claims
  ]
]

-- The rest of `verify_token`, on the three parts.
unfoldable pub verify_parts : Crypto → Settings → ℕ → Text → Text → Text → Option Claims
unfolding current_claims b64url_decode
verify_parts crypto s now header_b64 payload_b64 signature_b64 =
    elim (b64url_decode crypto signature_b64) [
      | none ↦ none
      | some supplied ↦
          if text_eq (crypto.sign (signing_key s) (header_b64 ++ dot ∷ payload_b64)) supplied
          then current_claims crypto now payload_b64
          else none
    ]

abbrev pub verify_list : Crypto → Settings → ℕ → List Text → Option Claims
verify_list crypto s now (h ∷ p ∷ g ∷ []) = verify_parts crypto s now h p g
verify_list crypto s now _ = none

-- `verify_token`. Where the code raises, on a character outside ASCII or an `exp` that `int` refuses, it
-- lets nobody through either: the first is signed here as any text is, the second is for `loads` to
-- refuse.
unfoldable pub verify_token : Crypto → Settings → ℕ → Text → Option Claims
unfolding verify_parts split_dots
verify_token crypto s now token = verify_list crypto s now (split_dots [] token)
