-- ===== src/Replicas.antt =====
-- The watch over files and their replicas: reconcile_file_liveness and replica_policy_health of
-- knowledge-hub/app/services.py.
pub mod Sweep
pub mod Health
pub mod Records
pub mod Swept
