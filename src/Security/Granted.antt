-- ===== src/Security/Granted.antt =====
-- What authorize and a configured key ask of a request, and lemmas on them.
use knowledge_flywheel.Base.{
  subst, ℕ, ◌/◌, ◌≤◌, String, Bool, true, false, ◌&&◌, not, Option, none, some, List, [], ◌∷◌, ◌≡◌,
  ◌≢◌, ◌↔◌, ◌⊎◌, inl, inr, refl, ap, sym, ◌∙◌, arith, str_eq, eq_iff, any, Member, Bool-cases,
  Option-cases, &&-true, drop, ltb,
}
use mathlib.Core.Option.{some-injective}
use knowledge_flywheel.Store.Table.{first}
use knowledge_flywheel.Models.Support.{ApiKey}
use knowledge_flywheel.Models.Session.{Session}
use knowledge_flywheel.Parse.Split.{strip}
use knowledge_flywheel.Security.Keys.{
  roles, is_role, opens, is_expired_key, verify_found, verify_api_key,
}
use knowledge_flywheel.Security.Tokens.{Claims, verify_token}
use knowledge_flywheel.Security.Guards.{
  Headers, Environment, is_bearer, grants, has_token, has_api_key, authorize, key_matches,
}

-- The request presents the configured key, and there is one.
abbrev pub IsPresented : String → Option String → Type 0
IsPresented configured given = (configured ≢ "") × (given ≡ some configured)

-- The request has a bearer token that verifies and names the role.
abbrev pub IsTokenHolder : Environment → Headers → String → Type 0
IsTokenHolder env h role =
    (is_bearer h.authorization ≡ true)
    × (c : Claims) × (verify_token env.crypto env.settings (env.now / 1000000)
          (strip (drop 7 h.authorization))
        ≡ some c)
    × Member role c.roles

-- A key that was not revoked and has not run out.
abbrev pub IsInForce : ℕ → ApiKey → Type 0
IsInForce now k = (k.active ≡ true) × ((expires : ℕ) → k.expires_at ≡ some expires → now ≤ expires)

-- The request has an API key, and the row with its hash and the role is in force.
abbrev pub IsKeyHolder : Environment → Option String → String → Session → Type 0
IsKeyHolder env given role db =
    (key : String) × (given ≡ some key)
    × (key ≢ "")
    × Member role roles
    × (k : ApiKey) × (first (λ (x : ApiKey). str_eq x.key_hash (env.hash key) && str_eq x.role role)
          db.api_keys
        ≡ some k)
    × IsInForce env.now k

abbrev pub IsGranted : Environment → Headers → String → Session → Type 0
IsGranted env h role db = IsTokenHolder env h role ⊎ IsKeyHolder env h.x_api_key role db

in_rest :
    (role x : String) (xs : List String)
    → str_eq role x ≡ false
    → Member role (x ∷ xs)
    → Member role xs
in_rest role x xs other (inl same) = let t = (eq_iff role x).1 same in absurd (ground arith)
in_rest role x xs other (inr m) = m

any-Member : (role : String) (xs : List String) → (any (str_eq role) xs ≡ true) ↔ Member role xs
any-Member role [] = ((λ e. cc), λ m. absurd m)
any-Member role (x ∷ xs) = elim (Bool-cases (str_eq role x)) [
  | inl same ↦ ((λ e. inl ((eq_iff role x).0 same)), λ m. rw same refl)
  | inr other ↦ (
    (λ e. inr ((any-Member role xs).0 (rw other at e))),
    λ m. rw other ((any-Member role xs).1 (in_rest role x xs other m)),
  )
]

not_empty : (s : String) → (not (str_eq s "") ≡ true) ↔ (s ≢ "")
not_empty s = elim (Bool-cases (str_eq s "")) [
  | inl empty ↦
      ((λ e. let e' = rw empty at e in cc), λ some_text. absurd (some_text ((eq_iff s "").0 empty)))
  | inr text ↦ ((λ e same. let t = (eq_iff s "").1 same in ground arith), λ some_text. rw text refl)
]

pub key_matches-IsPresented :
    (configured : String) (given : Option String)
    → (key_matches configured given ≡ true) ↔ IsPresented configured given
key_matches-IsPresented configured none = ((λ e. cc), λ p. cc)
key_matches-IsPresented configured (some key) = (
  (λ e.
      let (some_text, same) = &&-true _ _ e in
      ((not_empty configured).0 some_text, ap some ((eq_iff key configured).0 same))),
  λ (some_text, same).
      rw
        (
          (not_empty configured).1 some_text,
          (eq_iff key configured).1 (some-injective key configured same),
        )
        refl,
)

grants-Member :
    (role : String) (o : Option Claims)
    → (grants role o ≡ true) ↔ ((c : Claims) × (o ≡ some c) × Member role c.roles)
grants-Member role none = ((λ e. cc), λ p. cc)
grants-Member role (some c) = (
  (λ e. (c, refl, (any-Member role c.roles).0 e)),
  λ (c', same, m).
      (any-Member role c.roles).1
        (subst (λ x. Member role x.roles) (sym (some-injective c c' same)) m),
)

has_token-IsTokenHolder :
    (env : Environment) (h : Headers) (role : String)
    → (has_token env h role ≡ true) ↔ IsTokenHolder env h role
unfolding has_token
has_token-IsTokenHolder env h role =
    let claims =
      verify_token env.crypto env.settings (env.now / 1000000) (strip (drop 7 h.authorization)) in
    (
      (λ e.
          let (bearer, granted) = &&-true (is_bearer h.authorization) (grants role claims) e in
          let (c, found, named) = (grants-Member role claims).0 granted in
          (bearer, c, found, named)),
      λ (bearer, c, found, named).
          rw (bearer, (grants-Member role claims).1 (c, found, named)) refl,
    )

unexpired :
    (now : ℕ) (k : ApiKey)
    → (not (is_expired_key now k) ≡ true)
      ↔ ((expires : ℕ) → k.expires_at ≡ some expires → now ≤ expires)
unexpired now k = elim (Option-cases k.expires_at) [
  | inl forever ↦ (
    (λ e expires given. absurd (some-not-none expires (sym given ∙ forever))),
    λ late. rw forever refl,
  )
  | inr (t, given) ↦ (
    (λ e expires same.
        let same_time : t ≡ expires = some-injective t expires (sym given ∙ same) in
        let e' : not (ltb t now) ≡ true = rw given at e in ground arith),
    λ late. let bound : now ≤ t = late t given in rw given (ground arith),
  )
]
  where
    some-not-none : (n : ℕ) → some n ≡ none → ⊥
    some-not-none n e = cc

in_force :
    (now : ℕ) (k : ApiKey) → ((k.active && not (is_expired_key now k)) ≡ true) ↔ IsInForce now k
in_force now k = (
  (λ e.
      let (active, late) = &&-true k.active (not (is_expired_key now k)) e in
      (active, (unexpired now k).0 late)),
  λ (active, late). rw (active, (unexpired now k).1 late) refl,
)

-- A check that refuses leaves the session as it is.
abbrev IsCheck : Type 0 → Session → Bool × Session → Type 0
IsCheck A db r = ((r.0 ≡ true) ↔ A) × (r.0 ≡ false → r ≡ (false, db))

verify_found-IsCheck :
    (now : ℕ) (o : Option ApiKey) (db : Session)
    → IsCheck ((k : ApiKey) × (o ≡ some k) × IsInForce now k) db (verify_found now o db)
unfolding verify_found
verify_found-IsCheck now none db = (((λ e. cc), λ p. cc), λ e. refl)
verify_found-IsCheck now (some k) db = elim (Bool-cases (k.active && not (is_expired_key now k))) [
  | inl force ↦ rw force (((λ e. (k, refl, (in_force now k).0 force)), λ p. refl), λ e. cc)
  | inr over ↦ rw over (
    (
      (λ e. cc),
      λ (k', same, force).
          sym over
          ∙ (in_force now k).1 (subst (IsInForce now) (sym (some-injective k k' same)) force),
    ),
    λ e. refl,
  )
]

has_api_key-IsCheck :
    (env : Environment) (given : Option String) (role : String) (db : Session)
    → IsCheck (IsKeyHolder env given role db) db (has_api_key env given role db)
unfolding has_api_key verify_api_key
has_api_key-IsCheck env none role db = (((λ e. cc), λ p. cc), λ e. refl)
has_api_key-IsCheck env (some key) role db = elim (Bool-cases (str_eq key "")) [
  | inl empty ↦ rw empty (
    (
      (λ e. cc),
      λ (key', same, some_text, _, _, _, _).
          absurd (some_text (sym (some-injective key key' same) ∙ (eq_iff key "").0 empty)),
    ),
    λ e. refl,
  )
  | inr text ↦ elim (Bool-cases (is_role role)) [
    | inl known ↦
        let (passes, refuses) =
          verify_found-IsCheck env.now (first (opens (env.hash key) role) db.api_keys) db in
        rw (text, verify_api_key, known)
          (
            (
              (λ e.
                  let (k, found, force) = passes.0 e in
                  (key, refl, nonempty text, (any-Member role roles).0 known, k, found, force)),
              λ (key', same, _, _, k, found, force).
                  passes.1 (k, own_key key' (some-injective key key' same) k found, force),
            ),
            refuses,
          )
    | inr unknown ↦
        rw (text, verify_api_key, unknown)
          (
            ((λ e. cc), λ (_, _, _, named, _, _, _). sym unknown ∙ (any-Member role roles).1 named),
            λ e. refl,
          )
  ]
]
  where
    nonempty : str_eq key "" ≡ false → key ≢ ""
    nonempty text same = let t = (eq_iff key "").1 same in ground arith

    own_key :
        (key' : String)
        → key ≡ key'
        → (k : ApiKey) → first (opens (env.hash key') role) db.api_keys ≡ some k
        → first (opens (env.hash key) role) db.api_keys ≡ some k
    own_key key' same k found =
        subst (λ x. first (opens (env.hash x) role) db.api_keys ≡ some k) (sym same) found

-- A request is let through for a role exactly by a token or by a key, and a refusal changes nothing.
pub authorize-IsCheck :
    (env : Environment) (h : Headers) (role : String) (db : Session)
    → IsCheck (IsGranted env h role db) db (authorize env h role db)
unfolding authorize
authorize-IsCheck env h role db = elim (Bool-cases (has_token env h role)) [
  | inl token ↦
      rw (authorize, token)
        (((λ e. inl ((has_token-IsTokenHolder env h role).0 token)), λ p. refl), λ e. cc)
  | inr no_token ↦
      let (passes, refuses) = has_api_key-IsCheck env h.x_api_key role db in
      rw (authorize, no_token)
        (((λ e. inr (passes.0 e)), λ p. passes.1 (by_key no_token p)), refuses)
]
  where
    by_key :
        has_token env h role ≡ false → IsGranted env h role db → IsKeyHolder env h.x_api_key role db
    by_key no_token (inl token) =
        let t = (has_token-IsTokenHolder env h role).1 token in absurd (ground arith)
    by_key no_token (inr holder) = holder
