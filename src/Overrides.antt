-- ===== src/Overrides.antt =====
-- knowledge-hub/app/settings_store.py: settings that an administrator overrides at run time, and the
-- mask for the secret ones.
pub mod Settings
pub mod Refinement
pub mod Mask
