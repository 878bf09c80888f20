-- ===== src/Security/Keys.antt =====
-- create_api_key, revoke_api_key and verify_api_key.
use knowledge_flywheel.Base.{
  ℕ, ◌+◌, String, Bool, true, false, ◌&&◌, not, Option, none, some, List, [], ◌∷◌, ltb, str_eq,
  if◌then◌else◌, any, Result, ok, err, ◌<>◌,
}
use knowledge_flywheel.Store.Table.{first, add, put, next_id}
use knowledge_flywheel.Models.Json.{str}
use knowledge_flywheel.Models.Support.{ApiKey, api_key_entity}
use knowledge_flywheel.Models.Session.{Session, flush_all, commit, audit}
use knowledge_flywheel.Tasks.Queue.{seconds}

-- ROLES
abbrev pub roles : List String
roles = "admin" ∷ "node" ∷ "mobile" ∷ "search" ∷ "flywheel" ∷ "download" ∷ "mqtt_bridge" ∷ []

abbrev pub is_role : String → Bool
is_role role = any (str_eq role) roles

-- `hash_secret`: the hexadecimal SHA-256 of a text.
abbrev pub Hash : Type 0
Hash = String → String

-- The random parts of a new key, from `secrets`.
pub record Entropy : Type 0 where
  pub urlsafe : String
  pub hex : String

abbrev pub plaintext_of : Entropy → String → String
plaintext_of e role = "kh_" <> role <> "_" <> e.urlsafe

unfoldable pub new_key : Hash → ℕ → Entropy → String → String → Option ℕ → Session → ApiKey
new_key hash now e role label ttl_seconds db = record {
  id = next_id db.api_keys;
  key_id = role <> "-" <> e.hex;
  key_hash = hash (plaintext_of e role);
  role = role;
  label = label;
  active = true;
  created_at = now;
  last_used_at = none;
  expires_at = elim ttl_seconds [ none ↦ none | some ttl ↦ some (now + seconds ttl) ];
}

unfoldable pub add_key : ApiKey → Session → Session
add_key k db = record db { api_keys = add k db.api_keys }

-- `create_api_key`: the row and the plaintext.
unfoldable pub create_api_key :
    Hash → ℕ → Entropy → String → String → Option ℕ → Session → Result (ApiKey × String) × Session
unfolding new_key add_key
create_api_key hash now e role label ttl_seconds db =
    let k = new_key hash now e role label ttl_seconds db in
    if is_role role
    then (
      ok (k, plaintext_of e role),
      commit (
          audit "admin" "api_key.created" "api_key" k.key_id
            (("role", str role) ∷ ("label", str label) ∷ []) (flush_all (add_key k db))),
    )
    else (err ("unknown role: " <> role), db)

unfoldable pub save_key : ApiKey → Session → Session
save_key k db = record db { api_keys = put k db.api_keys }

abbrev pub has_key_id : String → ApiKey → Bool
has_key_id key_id k = str_eq k.key_id key_id

abbrev pub switched_off : ApiKey → ApiKey
switched_off k = record k { active = false }

-- `revoke_api_key`
unfoldable pub revoke_api_key : String → Session → Result ApiKey × Session
unfolding save_key
revoke_api_key key_id db = elim (first (has_key_id key_id) db.api_keys) [
  | none ↦ (err "api key not found", db)
  | some k ↦ (
    ok (switched_off k),
    commit (audit "admin" "api_key.revoked" "api_key" k.key_id [] (save_key (switched_off k) db)),
  )
]

-- The `where` clause of `verify_api_key`.
abbrev pub opens : String → String → ApiKey → Bool
opens key_hash role k = str_eq k.key_hash key_hash && str_eq k.role role

-- `now > expires`
abbrev pub is_expired_key : ℕ → ApiKey → Bool
is_expired_key now k = elim k.expires_at [ none ↦ false | some expires ↦ ltb expires now ]

-- The rest of `verify_api_key`, from `if key is None` on.
unfoldable pub verify_found : ℕ → Option ApiKey → Session → Bool × Session
unfolding save_key
verify_found now none db = (false, db)
verify_found now (some k) db =
    if k.active && not (is_expired_key now k)
    then (true, commit (save_key (record k { last_used_at = some now }) db))
    else (false, db)

-- `verify_api_key`
unfoldable pub verify_api_key : Hash → ℕ → String → String → Session → Bool × Session
unfolding verify_found
verify_api_key hash now plaintext role db =
    if not (str_eq plaintext "") && is_role role
    then verify_found now (first (opens (hash plaintext) role) db.api_keys) db
    else (false, db)
