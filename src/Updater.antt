-- ===== src/Updater.antt =====
-- The self-update of the centre: knowledge-hub/app/updater.py.
pub mod Release
pub mod Update
pub mod Outcomes
