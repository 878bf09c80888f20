-- ===== src/Security/Revocation.antt =====
-- verify_api_key after revoke_api_key.
use knowledge_flywheel.Base.{
  ℕ, String, true, false, ◌&&◌, not, Option, none, some, List, [], ◌∷◌, ◌≡◌, refl, ap, sym, ◌∙◌,
  arith, All, All-mono, AllDistinct, map, Bool-cases, inl, inr, str_eq, eq_iff, &&-true, ◌==◌,
}
use knowledge_flywheel.Store.Table.{IsClean, first, head?, put, flush, live_rows}
use knowledge_flywheel.Store.Laws.{
  first_test, select_clean, flush-IsClean, live_rows-flush, live_rows-put, replace_row, first-All,
}
use knowledge_flywheel.Store.Keyed.{distinct_at, head?-Member}
use knowledge_flywheel.Models.Support.{ApiKey, api_key_entity}
use knowledge_flywheel.Models.Session.{Session, commit, audit}
use knowledge_flywheel.Security.Keys.{
  Hash, is_role, has_key_id, switched_off, save_key, revoke_api_key, opens, verify_found,
  verify_api_key,
}

abbrev pub keys_of : Session → List ApiKey
keys_of db = live_rows db.api_keys

All-replaced :
    (P : ApiKey → Type 0) (a : ApiKey) (xs : List ApiKey)
    → P a
    → All (λ x. (x.id == a.id) ≡ false → P x) xs
    → All P (replace_row a xs)
All-replaced P a [] h hs = tt
All-replaced P a (x ∷ xs) h hs = elim (Bool-cases (x.id == a.id)) [
  | inl own ↦ rw own (h, All-replaced P a xs h hs.1)
  | inr other ↦ rw other (hs.0 other, All-replaced P a xs h hs.1)
]

-- Every key that opens for the plaintext is switched off.
abbrev IsShut : String → String → ApiKey → Type 0
IsShut key_hash role u = opens key_hash role u ≡ true → u.active ≡ false

revoked-rows :
    (key_id : String) (k : ApiKey) (db : Session)
    → first (has_key_id key_id) db.api_keys ≡ some k
    → (revoke_api_key key_id db).1.api_keys ≡ flush (put (switched_off k) db.api_keys)
unfolding revoke_api_key commit audit save_key
revoked-rows key_id k db found = rw (found, revoke_api_key) refl

revoked-IsShut :
    (key_hash role : String) (k : ApiKey) (db : Session)
    → AllDistinct (map (λ (u : ApiKey). u.key_hash) (keys_of db))
    → (m : first (λ u. has_key_id k.key_id u) db.api_keys ≡ some k) → IsClean db.api_keys
    → k.key_hash ≡ key_hash
    → All (IsShut key_hash role) (replace_row (switched_off k) (keys_of db))
revoked-IsShut key_hash role k db distinct m c same =
    All-replaced (IsShut key_hash role) (switched_off k) (keys_of db) (λ hit. refl)
      (All-mono _ _ (keys_of db)
        (λ u own other hit. absurd (
          not_other u
            (own (
              (eq_iff u.key_hash key_hash).0 ((&&-true (str_eq u.key_hash key_hash) _ hit).0)
              ∙ sym same))
            other))
        (distinct_at (λ (u : ApiKey). u.key_hash) k (keys_of db) distinct
          (head?-Member (has_key_id k.key_id) (keys_of db) k
            (ap head? (sym (select_clean (has_key_id k.key_id) db.api_keys c)) ∙ m))))
  where
    not_other : (u : ApiKey) → u ≡ k → (u.id == k.id) ≡ false → ⊥
    not_other u e other = ground (arith, ap (λ (v : ApiKey). v.id) e)

verify_found-shut :
    (now : ℕ) (key_hash role : String) (o : Option ApiKey) (db : Session)
    → All (IsShut key_hash role) (keys_of db)
    → IsClean db.api_keys
    → first (opens key_hash role) db.api_keys ≡ o
    → (verify_found now o db).0 ≡ false
unfolding verify_found
verify_found-shut now key_hash role none db h c e = refl
verify_found-shut now key_hash role (some u) db h c e =
    let off : u.active ≡ false =
      first-All (IsShut key_hash role) (opens key_hash role) db.api_keys u h e
        (first_test (opens key_hash role) db.api_keys u c e) in
    simp off refl

-- Over committed keys whose hashes are distinct: once a key is revoked, its plaintext is refused, for
-- every role and at every time.
pub revoked_key_refused :
    (hash : Hash) (now : ℕ) (plaintext role : String) (k : ApiKey) (db : Session)
    → IsClean db.api_keys
    → AllDistinct (map (λ (u : ApiKey). u.key_hash) (keys_of db))
    → first (has_key_id k.key_id) db.api_keys ≡ some k
    → k.key_hash ≡ hash plaintext
    → (verify_api_key hash now plaintext role (revoke_api_key k.key_id db).1).0 ≡ false
unfolding verify_api_key
revoked_key_refused hash now plaintext role k db c distinct found same =
    let db' = (revoke_api_key k.key_id db).1 in
    let rows = revoked-rows k.key_id k db found in
    elim (Bool-cases (not (str_eq plaintext "") && is_role role)) [
      | inr refused ↦ rw (refused, verify_api_key) refl
      | inl known ↦
          rw (known, verify_api_key)
            (verify_found-shut now (hash plaintext) role
              (first (opens (hash plaintext) role) db'.api_keys) db'
              (rw rows (
                rw (live_rows-flush, live_rows-put)
                  (revoked-IsShut (hash plaintext) role k db distinct found c same)))
              (rw rows (flush-IsClean _)) refl)
    ]
