-- ===== src/Security/RoundTrip.antt =====
-- verify_token on what create_token issued.
use knowledge_flywheel.Base.{
  ℕ, zero, suc, ◌+◌, ◌-◌, ◌%◌, ◌<◌, String, true, Option, none, some, List, [], ◌∷◌, ◌++◌, ◌≡◌, ◌≢◌,
  refl, ap, sym, ◌∙◌, arith, All, Bool-cases, inl, inr, ltb, ◌==◌, ==_iff, ==_refl, length,
  length-append, if◌then◌else◌,
}
use mathlib.Core.List.{
  reverse, append_assoc, append-nil, reverse-cons, reverse-reverse, reverse-append,
}
use knowledge_flywheel.Config.{Settings}
use knowledge_flywheel.Parse.Split.{Text}
use knowledge_flywheel.Overrides.Settings.{text_eq}
use knowledge_flywheel.Security.Tokens.{
  Claims, Crypto, dot, equals_sign, drop_signs, strip_signs, signs, b64url, padded, b64url_decode,
  signing_key, header_json, claims_of, signing_input, create_token, split_dots, current_claims,
  verify_parts, verify_token,
}

-- What is used of base64: it decodes what it encoded, and prints groups of four
-- characters, at most three "=" at the end, and no dot.
pub record IsLawful (crypto : Crypto) : Type 0 where
  pub decode-encode : (bytes : Text) → crypto.decode (crypto.encode bytes) ≡ some bytes
  pub groups : (bytes : Text) → length (crypto.encode bytes) % 4 ≡ 0
  pub few_signs :
      (bytes : Text) → length (crypto.encode bytes) < length (strip_signs (crypto.encode bytes)) + 4
  pub no_dots : (bytes : Text) → All (λ c. c ≢ dot) (crypto.encode bytes)

signs_snoc : (n : ℕ) → signs n ++ equals_sign ∷ [] ≡ equals_sign ∷ signs n
unfolding signs
signs_snoc zero = refl
signs_snoc (suc n) = ap (◌∷◌ equals_sign) (signs_snoc n)

reverse-signs : (n : ℕ) → reverse (signs n) ≡ signs n
unfolding signs
reverse-signs zero = refl
reverse-signs (suc n) =
    reverse-cons equals_sign (signs n)
    ∙ ap (λ s. s ++ equals_sign ∷ []) (reverse-signs n)
    ∙ signs_snoc n

length-signs : (n : ℕ) → length (signs n) ≡ n
unfolding signs
length-signs zero = refl
length-signs (suc n) = ap suc (length-signs n)

drop_signs-split : (t : Text) → (n : ℕ) × (t ≡ signs n ++ drop_signs t)
unfolding drop_signs signs
drop_signs-split [] = (zero, refl)
drop_signs-split (c ∷ cs) = elim (Bool-cases (c == equals_sign)) [
  | inl sign ↦
      let (n, e) = drop_signs-split cs in
      (suc n, rw sign (ap (λ d. d ∷ cs) ((==_iff c equals_sign).0 sign) ∙ ap (◌∷◌ equals_sign) e))
  | inr other ↦ (zero, rw other refl)
]

pub strip_signs-split : (s : Text) → (n : ℕ) × (s ≡ strip_signs s ++ signs n)
unfolding strip_signs
strip_signs-split s =
    let (n, e) = drop_signs-split (reverse s) in
    (
      n,
      sym (reverse-reverse s)
          ∙ ap reverse e
          ∙ reverse-append (signs n) (drop_signs (reverse s))
          ∙ ap (λ t. reverse (drop_signs (reverse s)) ++ t) (reverse-signs n),
    )

-- The padding that decoding puts back is what encoding took off.
padded-strip :
    (s : Text)
    → length s % 4 ≡ 0
    → length s < length (strip_signs s) + 4
    → padded (strip_signs s) ≡ s
unfolding padded
padded-strip s groups few =
    let (n, e) = strip_signs-split s in
    let size : length s ≡ length (strip_signs s) + n =
      ap length e
      ∙ length-append (strip_signs s) (signs n)
      ∙ ap (λ k. length (strip_signs s) + k) (length-signs n) in
    let same : (4 - length (strip_signs s) % 4) % 4 ≡ n = omega (arith, size, groups, few) in
    ap (λ k. strip_signs s ++ signs k) same ∙ sym e

All_left : (P : ℕ → Type 0) (xs ys : Text) → All P (xs ++ ys) → All P xs
All_left P [] ys h = tt
All_left P (x ∷ xs) ys h = (h.0, All_left P xs ys h.1)

split_dots-part :
    (part xs ys : Text)
    → All (λ c. c ≢ dot) xs
    → split_dots part (xs ++ dot ∷ ys) ≡ (part ++ xs) ∷ split_dots [] ys
unfolding split_dots
split_dots-part part [] ys h = ap (λ p. p ∷ split_dots [] ys) (sym (append-nil part))
split_dots-part part (x ∷ xs) ys h = elim (Bool-cases (x == dot)) [
  | inl hit ↦ absurd (h.0 ((==_iff x dot).0 hit))
  | inr miss ↦ rw miss (
      split_dots-part (part ++ x ∷ []) xs ys h.1
      ∙ ap (λ p. p ∷ split_dots [] ys) (append_assoc part (x ∷ []) xs))
]

split_dots-last : (part xs : Text) → All (λ c. c ≢ dot) xs → split_dots part xs ≡ (part ++ xs) ∷ []
unfolding split_dots
split_dots-last part [] h = ap (λ p. p ∷ []) (sym (append-nil part))
split_dots-last part (x ∷ xs) h = elim (Bool-cases (x == dot)) [
  | inl hit ↦ absurd (h.0 ((==_iff x dot).0 hit))
  | inr miss ↦
      rw miss
        (split_dots-last (part ++ x ∷ []) xs h.1 ∙ ap (λ p. p ∷ []) (append_assoc part (x ∷ []) xs))
]

text_eq_refl : (s : Text) → text_eq s s ≡ true
text_eq_refl [] = refl
text_eq_refl (c ∷ cs) = rw (==_refl c) (text_eq_refl cs)

module _ (crypto : Crypto) (laws : IsLawful crypto) where
  b64url-no_dots : (bytes : Text) → All (λ c. c ≢ dot) (b64url crypto bytes)
  unfolding b64url
  b64url-no_dots bytes =
      let (n, e) = strip_signs-split (crypto.encode bytes) in
      All_left (λ c. c ≢ dot) (strip_signs (crypto.encode bytes)) (signs n)
        (rw (← e) (laws.no_dots bytes))

  b64url_decode-b64url : (bytes : Text) → b64url_decode crypto (b64url crypto bytes) ≡ some bytes
  unfolding b64url b64url_decode
  b64url_decode-b64url bytes =
      ap crypto.decode
        (padded-strip (crypto.encode bytes) (laws.groups bytes) (laws.few_signs bytes))
      ∙ laws.decode-encode bytes

  token_parts :
      (h p g : Text)
      → split_dots [] ((b64url crypto h ++ dot ∷ b64url crypto p) ++ dot ∷ b64url crypto g)
        ≡ b64url crypto h ∷ b64url crypto p ∷ b64url crypto g ∷ []
  token_parts h p g =
      ap (split_dots [])
        (append_assoc (b64url crypto h) (dot ∷ b64url crypto p) (dot ∷ b64url crypto g))
      ∙ split_dots-part [] (b64url crypto h) _ (b64url-no_dots h)
      ∙ ap (◌∷◌ (b64url crypto h)) (
          split_dots-part [] (b64url crypto p) _ (b64url-no_dots p)
          ∙ ap (◌∷◌ (b64url crypto p)) (split_dots-last [] (b64url crypto g) (b64url-no_dots g)))

  current_claims-dumps :
      (now : ℕ) (claims : Claims)
      → crypto.loads (crypto.dumps claims) ≡ some claims
      → current_claims crypto now (b64url crypto (crypto.dumps claims))
        ≡ (if ltb claims.exp now then none else some claims)
  unfolding current_claims
  current_claims-dumps now claims parses =
      rw (current_claims, b64url_decode-b64url (crypto.dumps claims), parses) refl

verified :
    (crypto : Crypto) (laws : IsLawful crypto) (s : Settings) (later : ℕ) (claims : Claims)
    → crypto.loads (crypto.dumps claims) ≡ some claims
    → let header = b64url crypto header_json in
      let payload = b64url crypto (crypto.dumps claims) in
      verify_parts crypto s later header payload
        (b64url crypto (crypto.sign (signing_key s) (header ++ dot ∷ payload)))
      ≡ (if ltb claims.exp later then none else some claims)
unfolding verify_parts
verified crypto laws s later claims parses =
    let message = b64url crypto header_json ++ dot ∷ b64url crypto (crypto.dumps claims) in
    rw
      (
        verify_parts,
        b64url_decode-b64url crypto laws (crypto.sign (signing_key s) message),
        text_eq_refl (crypto.sign (signing_key s) message),
      )
      (current_claims-dumps crypto laws later claims parses)

-- Where base64 decodes what it encoded and JSON reads the claims back: a token that was issued
-- verifies, under the same settings, to exactly its claims, with the roles that exist among those
-- asked for, until the second of its expiry, and to nothing afterwards.
pub verify_token-create_token :
    (crypto : Crypto) (laws : IsLawful crypto) (s : Settings) (now later : ℕ) (principal : String)
    (wanted : List String) (ttl_seconds : Option ℕ)
    → let claims = claims_of s now principal wanted ttl_seconds in
      crypto.loads (crypto.dumps claims) ≡ some claims
      → verify_token crypto s later (create_token crypto s now principal wanted ttl_seconds)
        ≡ (if ltb claims.exp later then none else some claims)
unfolding verify_token create_token signing_input
verify_token-create_token crypto laws s now later principal wanted ttl_seconds parses =
    let claims = claims_of s now principal wanted ttl_seconds in
    let message = b64url crypto header_json ++ dot ∷ b64url crypto (crypto.dumps claims) in
    rw
      (token_parts crypto laws header_json (crypto.dumps claims)
        (crypto.sign (signing_key s) message))
      (verified crypto laws s later claims parses)
