-- ===== src/Tests/Releases.antt =====
-- The theorem on self-updates at a newer release whose digest is right.
use knowledge_flywheel.Base.{true, false, none, some, [], ◌∷◌, ◌≡◌, ◌⊎◌, ok}
use knowledge_flywheel.Updater.Release.{Release, Machine, UpdateInfo, check_update}
use knowledge_flywheel.Updater.Update.{UpdateStatus, up_to_date, Centre, perform_update}
use knowledge_flywheel.Updater.Outcomes.{EndsFailed, perform_update_never_restarts}
use knowledge_flywheel.Tests.Samples.{settings}

abbrev newer : Release
newer = record {
  tag_name = "v2.0.0";
  published_at = none;
  assets =
      (record {
        name = "knowledge-center.exe";
        digest = some "sha256:f00d";
        browser_download_url = some "https://github.com/centre.exe";
      })
      ∷ [];
}

abbrev windows : Machine
windows = record {
  settings = settings;
  latest_release = ok newer;
  system = "windows";
  machine = "amd64";
  download = λ url. ok (77 ∷ 90 ∷ []);
  sha256 = λ bytes. "f00d";
  type_error = "str.join() takes no keyword arguments";
}

abbrev before : Centre
before = record {
  state = record { status = UpdateStatus.idle; message = ""; latest_version = "" };
  next_file = none;
  spawned = false;
}

perform_update_never_restarts_example :
    let (r, c) = perform_update windows before in
    ((info : UpdateInfo) × (check_update windows ≡ ok info)
      × (info.update_available ≡ false)
      × (r.done ≡ true)
      × (c.state.status ≡ up_to_date)
      × (c.spawned ≡ false))
    ⊎ EndsFailed before (perform_update windows before)
perform_update_never_restarts_example = perform_update_never_restarts windows before
