-- ===== src/Tests/Console.antt =====
-- The theorems on the settings store at a small table.
use knowledge_flywheel.Store.Table.{live_rows}
use knowledge_flywheel.Base.{true, false, [], ◌∷◌, ◌≡◌, ◌⊎◌, refl, inr, ok, err, ◌<>◌}
use knowledge_flywheel.Store.Table.{loaded, select}
use knowledge_flywheel.Models.Support.{SettingsOverride}
use knowledge_flywheel.Models.Session.{Session}
use knowledge_flywheel.Overrides.Settings.{codes, set_override, is_writable, mask_secret}
use knowledge_flywheel.Overrides.Refinement.{view, written, set_override_refines}
use knowledge_flywheel.Overrides.Mask.{mask_secret-hides}
use knowledge_flywheel.Tests.Samples.{empty_session}

abbrev dify_url : SettingsOverride
dify_url = record {
  id = 1;
  key = "dify_base_url";
  value = codes "http://dify.local";
  updated_at = 10;
}

abbrev one_override : Session
one_override = record empty_session { settings_overrides = loaded dify_url ∷ [] }

set_override_refines_example :
    let (result, db') = set_override 50 "dify_base_url" [] one_override in
    ((is_writable "dify_base_url" ≡ true)
      × (result ≡ ok true)
      × (view db' ≡ written (view one_override) "dify_base_url" []))
    ⊎ ((is_writable "dify_base_url" ≡ false)
        × (result ≡ err ("key not writable: " <> "dify_base_url"))
        × (db' ≡ one_override))
unfolding select live_rows
set_override_refines_example =
    set_override_refines 50 "dify_base_url" [] one_override (refl, tt)
      (record { ids = (tt, tt); keys = (tt, tt) })

mask_secret-hides_example : mask_secret (codes "abcd1234wxyz") ≡ mask_secret (codes "abcd9876wxyz")
mask_secret-hides_example =
    mask_secret-hides (codes "abcd1234wxyz") (codes "abcd9876wxyz") refl (inr (refl, refl))
