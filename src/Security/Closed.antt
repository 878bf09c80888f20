-- ===== src/Security/Closed.antt =====
-- Whom the guards of a role let through.
use knowledge_flywheel.Base.{String, Bool, true, Option, ◌≡◌, ◌≢◌, ◌⊎◌, Result, ok, err}
use knowledge_flywheel.Models.Session.{Session}
use knowledge_flywheel.Security.Guards.{Headers, Environment}
use knowledge_flywheel.Security.Granted.{IsPresented, IsGranted}

-- A guard lets the request through, and `A` holds, or it answers with the text and the session as it
-- was, and `A` does not hold.
abbrev pub Admits : Type 0 → String → Session → Result Bool × Session → Type 0
Admits A text db r = (A × (r.0 ≡ ok true)) ⊎ (¬ A) × (r ≡ (err text, db))

-- The request has the configured key of a role, a token for it or a stored key for it.
abbrev pub IsCredited : Environment → String → String → Option String → Headers → Session → Type 0
IsCredited env role configured given h db = IsPresented configured given ⊎ IsGranted env h role db

-- What a guard that only works in production asks for.
abbrev pub IsOpenOr : Environment → Type 0 → Type 0
IsOpenOr env A = (env.settings.app_env ≢ "production") ⊎ A
