-- ===== src/Tests/Access.antt =====
-- The theorems on keys, tokens and guards at a small table, with a toy codec and a toy hash.
use knowledge_flywheel.Overrides.Settings.{lower}
use knowledge_flywheel.Store.Table.{live_rows}
use knowledge_flywheel.Base.{
  ℕ, zero, suc, ◌+◌, ◌-◌, ◌%◌, ◌<◌, true, false, none, some, [], ◌∷◌, ◌++◌, ◌≡◌, ◌≢◌, refl, ap, ◌∙◌,
  arith, All, length, length-append, ok, err,
}
use knowledge_flywheel.Store.Table.{loaded, select}
use knowledge_flywheel.Models.Support.{ApiKey}
use knowledge_flywheel.Models.Session.{Session}
use knowledge_flywheel.Parse.Split.{Text}
use Prim.Native.String.{◌∷◌, []}
use Prim.Native.Nat.{◌<◌, ℕ}
use knowledge_flywheel.Security.Keys.{Hash, verify_api_key, revoke_api_key}
use knowledge_flywheel.Security.Tokens.{
  strip_signs, signs, equals_sign, dot, signs, Crypto, Claims, create_token, verify_token,
  claims_of,
}
use knowledge_flywheel.Security.Guards.{Headers, Environment, require_admin, require_mobile}
use knowledge_flywheel.Overrides.Settings.{codes}
use knowledge_flywheel.Security.Revocation.{revoked_key_refused}
use knowledge_flywheel.Security.RoundTrip.{IsLawful, strip_signs-split, verify_token-create_token}
use knowledge_flywheel.Tests.Samples.{empty_session, settings}

-- A codec that prints a character as four copies of another, none of them "." or "=".
abbrev quadruple : Text → Text
quadruple [] = []
quadruple (c ∷ cs) = (c + 62) ∷ (c + 62) ∷ (c + 62) ∷ (c + 62) ∷ quadruple cs

abbrev every_fourth : Text → Text
every_fourth (a ∷ b ∷ c ∷ d ∷ rest) = (a - 62) ∷ every_fourth rest
every_fourth _ = []

abbrev issued : Claims
issued = record { sub = "mobile-7"; roles = "mobile" ∷ []; iat = 100; exp = 3700 }

abbrev toy : Crypto
toy = record {
  encode = quadruple;
  decode = λ text. some (every_fourth text);
  dumps = λ claims. codes claims.sub;
  loads = λ text. some issued;
  sign = λ key message. key ++ message;
}

decode_quadruple : (bytes : Text) → every_fourth (quadruple bytes) ≡ bytes
decode_quadruple [] = refl
decode_quadruple (c ∷ cs) =
    let back : c + 62 - 62 ≡ c = omega arith in rw (back, decode_quadruple cs) refl

quadruple_groups : (bytes : Text) → length (quadruple bytes) % 4 ≡ 0
quadruple_groups [] = refl
quadruple_groups (c ∷ cs) = let rest = quadruple_groups cs in omega arith

quadruple_avoids : (x : ℕ) → x < 62 → (bytes : Text) → All (λ c. c ≢ x) (quadruple bytes)
quadruple_avoids x low [] = tt
quadruple_avoids x low (c ∷ cs) =
    let high : c + 62 ≢ x = λ e. omega arith in
    (high, (high, (high, (high, quadruple_avoids x low cs))))

All_right : (P : ℕ → Type 0) (xs ys : Text) → All P (xs ++ ys) → All P ys
All_right P [] ys h = h
All_right P (x ∷ xs) ys h = All_right P xs ys h.1

not_signs : (n : ℕ) → All (λ c. c ≢ equals_sign) (signs n) → n ≡ 0
unfolding signs
not_signs zero h = refl
not_signs (suc n) h = absurd (h.0 refl)

few : (bytes : Text) → length (quadruple bytes) < length (strip_signs (quadruple bytes)) + 4
unfolding signs
few bytes =
    let (n, e) = strip_signs-split (quadruple bytes) in
    let avoids = quadruple_avoids equals_sign (omega arith) bytes in
    let none_left : n ≡ 0 = not_signs n (
      All_right (λ c. c ≢ equals_sign) (strip_signs (quadruple bytes)) (signs n)
        (rw (← e) avoids)) in
    let size : length (quadruple bytes)
        ≡ length (strip_signs (quadruple bytes)) + length (signs n) =
      ap length e ∙ length-append (strip_signs (quadruple bytes)) (signs n) in
    let nothing : length (signs n) ≡ 0 = rw none_left refl in omega (arith, size, nothing)

toy-IsLawful : IsLawful toy
toy-IsLawful = record {
  decode-encode = λ bytes. ap some (decode_quadruple bytes);
  groups = quadruple_groups;
  few_signs = few;
  no_dots = quadruple_avoids dot (omega arith);
}

issued_claims : claims_of settings 100 "mobile-7" ("mobile" ∷ "root" ∷ []) none ≡ issued
unfolding claims_of
issued_claims = refl

verify_token-create_token_example :
    verify_token toy settings 2000
      (create_token toy settings 100 "mobile-7" ("mobile" ∷ "root" ∷ []) none)
    ≡ some (claims_of settings 100 "mobile-7" ("mobile" ∷ "root" ∷ []) none)
unfolding claims_of
verify_token-create_token_example =
    verify_token-create_token toy toy-IsLawful settings 100 2000 "mobile-7" ("mobile" ∷ "root" ∷ [])
      none refl

abbrev same_text : Hash
same_text plaintext = plaintext

abbrev mobile_key : ApiKey
mobile_key = record {
  id = 1;
  key_id = "mobile-1";
  key_hash = "kh_mobile_abc";
  role = "mobile";
  label = "phone";
  active = true;
  created_at = 10;
  last_used_at = none;
  expires_at = none;
}

abbrev one_key : Session
one_key = record empty_session { api_keys = loaded mobile_key ∷ [] }

key_opens : (verify_api_key same_text 50 "kh_mobile_abc" "mobile" one_key).0 ≡ true
unfolding verify_api_key select
key_opens = refl

revoked_key_refused_example :
    (verify_api_key same_text 50 "kh_mobile_abc" "mobile" (revoke_api_key "mobile-1" one_key).1).0
    ≡ false
unfolding select live_rows
revoked_key_refused_example =
    revoked_key_refused same_text 50 "kh_mobile_abc" "mobile" mobile_key one_key (refl, tt) (tt, tt)
      refl refl

-- A wrong role key, and the stored key of a phone.
abbrev phone_request : Headers
phone_request = record { authorization = []; x_api_key = some "kh_mobile_abc" }

abbrev outside : Environment
outside = record { hash = same_text; crypto = toy; settings = settings; now = 50 }

phone_passes : (require_mobile outside (some "guess") phone_request one_key).0 ≡ ok true
unfolding require_mobile verify_api_key select lower
phone_passes = refl

phone_refused :
    require_admin outside (some "guess") phone_request one_key
    ≡ (err "admin authentication required", one_key)
unfolding require_admin verify_api_key select lower
phone_refused = refl
