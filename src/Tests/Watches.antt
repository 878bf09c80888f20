-- ===== src/Tests/Watches.antt =====
-- The theorem on a sweep at a small table.
use knowledge_flywheel.Base.{arith, ℕ, true, [], ◌∷◌, ◌≡◌, refl, All, map, keep, length}
use knowledge_flywheel.Store.Table.{loaded, live_rows}
use knowledge_flywheel.Models.Status.{FileStatus}
use knowledge_flywheel.Models.Rows.{FileRecord}
use knowledge_flywheel.Models.Session.{Session}
use knowledge_flywheel.Replicas.Sweep.{Watch, reconcile_file_liveness}
use knowledge_flywheel.Replicas.Swept.{
  files_of, swept, IsWatched, goes_missing, reconcile_file_liveness_watches,
}
use knowledge_flywheel.Tests.Samples.{empty_session, settings}

abbrev file_seen : ℕ → ℕ → FileRecord
file_seen n seen = record {
  id = n;
  path = "/docs/plan.txt";
  file_hash = "abcdef12";
  size_bytes = 10;
  status = FileStatus.registered;
  alive = true;
  last_seen_at = seen;
  version = 1;
  category = "通用";
  source_node_id = "pc-1";
}

-- The first file was not seen for a while.
abbrev two_files : Session
two_files = record empty_session {
  files = loaded (file_seen 1 0) ∷ loaded (file_seen 2 190000000) ∷ [];
}

abbrev watch : Watch
watch = record { now = 200000000; missing_after = 60; settings = settings }

reconcile_file_liveness_watches_example :
    let (report, db') = reconcile_file_liveness watch ("nas-1" ∷ []) two_files in
    (files_of db' ≡ map (swept watch) (files_of two_files))
    × All (IsWatched watch) (files_of db')
    × (report.counts.marked_missing ≡ length (keep (goes_missing watch) (files_of two_files)))
unfolding live_rows
reconcile_file_liveness_watches_example =
    reconcile_file_liveness_watches watch ("nas-1" ∷ []) two_files (refl, (refl, tt))
      (((λ e. omega arith), tt), (tt, tt))
