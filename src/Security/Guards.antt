-- ===== src/Security/Guards.antt =====
-- authorize, and the guards of knowledge-hub/app/main.py.
use knowledge_flywheel.Base.{
  ℕ, ◌/◌, String, Bool, true, false, ◌&&◌, not, Option, none, some, str_eq, if◌then◌else◌, any,
  take, drop, Result, ok, err,
}
use knowledge_flywheel.Config.{Settings}
use knowledge_flywheel.Models.Session.{Session}
use knowledge_flywheel.Parse.Split.{Text, strip}
use knowledge_flywheel.Overrides.Settings.{codes, text_eq, lower}
use knowledge_flywheel.Security.Keys.{Hash, verify_api_key}
use knowledge_flywheel.Security.Tokens.{Crypto, Claims, verify_token}

-- The headers that the checks read: `authorization` is the empty text where it is missing.
pub record Headers : Type 0 where
  pub authorization : Text
  pub x_api_key : Option String

-- What the checks take from outside, and the clock: the time in microseconds.
pub record Environment : Type 0 where
  pub hash : Hash
  pub crypto : Crypto
  pub settings : Settings
  pub now : ℕ

-- `authorization.lower().startswith("bearer ")`
abbrev pub is_bearer : Text → Bool
is_bearer authorization = text_eq (lower (take 7 authorization)) (codes "bearer ")

abbrev pub grants : String → Option Claims → Bool
grants role none = false
grants role (some claims) = any (str_eq role) claims.roles

unfoldable pub has_token : Environment → Headers → String → Bool
has_token env h role =
    is_bearer h.authorization
    && grants role
        (verify_token env.crypto env.settings (env.now / 1000000) (strip (drop 7 h.authorization)))

-- `if api_key: return verify_api_key(...)`
unfoldable pub has_api_key : Environment → Option String → String → Session → Bool × Session
has_api_key env none role db = (false, db)
has_api_key env (some key) role db =
    if str_eq key "" then (false, db) else verify_api_key env.hash env.now key role db

-- `authorize`
unfoldable pub authorize : Environment → Headers → String → Session → Bool × Session
unfolding has_token has_api_key
authorize env h role db =
    if has_token env h role then (true, db) else has_api_key env h.x_api_key role db

-- `settings.key and given == settings.key`
abbrev pub key_matches : String → Option String → Bool
key_matches configured none = false
key_matches configured (some given) = not (str_eq configured "") && str_eq given configured

-- A guard for a role: its configured key, or `authorize`; else a 401 with the text.
unfoldable pub require_role :
    Environment
    → String
    → String
    → String
    → Option String
    → Headers
    → Session
    → Result Bool × Session
unfolding authorize
require_role env role configured text given h db =
    let (allowed, db') = authorize env h role db in
    if key_matches configured given
    then (ok true, db)
    else if allowed
    then (ok true, db')
    else (err text, db')

-- A guard that lets every request pass outside production.
unfoldable pub require_in_production :
    Environment
    → String
    → String
    → String
    → Option String
    → Headers
    → Session
    → Result Bool × Session
unfolding require_role
require_in_production env role configured text given h db =
    if str_eq env.settings.app_env "production"
    then require_role env role configured text given h db
    else (ok true, db)

-- `require_admin`
unfoldable pub require_admin :
    Environment → Option String → Headers → Session → Result Bool × Session
unfolding require_in_production
require_admin env =
    require_in_production env "admin" env.settings.admin_api_key "admin authentication required"

-- `require_mobile`
unfoldable pub require_mobile :
    Environment → Option String → Headers → Session → Result Bool × Session
unfolding require_in_production
require_mobile env =
    require_in_production env "mobile" env.settings.mobile_api_key "mobile authentication required"

-- `require_mqtt_bridge`: it has no development mode.
unfoldable pub require_mqtt_bridge :
    Environment → Option String → Headers → Session → Result Bool × Session
unfolding require_role
require_mqtt_bridge env =
    require_role env "mqtt_bridge" env.settings.mqtt_bridge_api_key
      "MQTT bridge authentication required"

-- `require_search`
unfoldable pub require_search :
    Environment → Option String → Headers → Session → Result Bool × Session
unfolding require_in_production
require_search env =
    require_in_production env "search" env.settings.search_api_key "search authentication required"

-- `require_download`
unfoldable pub require_download :
    Environment → Option String → Headers → Session → Result Bool × Session
unfolding require_in_production
require_download env =
    require_in_production env "download" env.settings.download_api_key
      "download authentication required"

-- `require_node`: every node of the network is trusted.
unfoldable pub require_node : Session → Result Bool × Session
require_node db = (ok true, db)

-- `require_admin_or_node`: it only records that an API key was used.
unfoldable pub require_admin_or_node :
    Environment → Option String → Headers → Session → Result Bool × Session
unfolding authorize
require_admin_or_node env given h db =
    if key_matches env.settings.admin_api_key given
    then (ok true, db)
    else (ok true, (authorize env h "admin" db).1)
