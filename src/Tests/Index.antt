-- ===== src/Tests/Index.antt =====
-- The theorems on the file index at small tables.
use knowledge_flywheel.Base.{true, none, some, [], ◌∷◌, ◌≡◌, refl}
use knowledge_flywheel.Store.Table.{select, first, loaded}
use knowledge_flywheel.Models.Status.{FileStatus, TaskStatus}
use knowledge_flywheel.Models.Rows.{FileRecord}
use knowledge_flywheel.Models.Session.{Session}
use knowledge_flywheel.Files.Report.{FileReport, is_version, report_file}
use knowledge_flywheel.Files.Versions.{files_of, IsNewVersion, report_file-IsNewVersion}
use knowledge_flywheel.Files.Registration.{IsRegistered, report_again-IsRegistered}
use knowledge_flywheel.Tests.Samples.{empty_session, task_of}

abbrev first_version : FileRecord
first_version = record {
  id = 9;
  path = "/docs/plan.txt";
  file_hash = "abcdef12";
  size_bytes = 10;
  status = FileStatus.reported;
  alive = true;
  last_seen_at = 50;
  version = 1;
  category = "通用";
  source_node_id = "pc-1";
}

-- The version's register task failed.
abbrev one_file : Session
one_file = record empty_session {
  files = loaded first_version ∷ [];
  tasks = loaded (task_of 1 "file-register:9:abcdef12" TaskStatus.failed none 10) ∷ [];
}

abbrev changed_report : FileReport
changed_report = record {
  node_id = "pc-1";
  path = "/docs/plan.txt";
  file_hash = "99999999";
  size_bytes = 12;
  category = "";
}

version_fresh : first (is_version "/docs/plan.txt" "99999999") one_file.files ≡ none
unfolding select
version_fresh = refl

report_file-IsNewVersion_example :
    let (f, db') = report_file 80 changed_report one_file in
    IsNewVersion 80 changed_report f (files_of one_file) (files_of db')
report_file-IsNewVersion_example =
    report_file-IsNewVersion 80 changed_report one_file (refl, tt) version_fresh

abbrev same_report : FileReport
same_report = record changed_report { file_hash = "abcdef12" }

version_known : first (is_version "/docs/plan.txt" "abcdef12") one_file.files ≡ some first_version
unfolding select
version_known = refl

report_again-IsRegistered_example :
    let (f, db') = report_file 80 same_report one_file in IsRegistered f db'
report_again-IsRegistered_example =
    report_again-IsRegistered 80 same_report first_version one_file (refl, tt) version_known
