-- ===== src/Updater/Outcomes.antt =====
-- How a self-update ends.
use knowledge_flywheel.Base.{
  ℕ, String, true, false, some, List, ◌≡◌, ◌⊎◌, refl, inl, inr, str_eq, ok, Result-cases,
  Bool-cases, Option-cases, ◌<>◌,
}
use knowledge_flywheel.Updater.Release.{Machine, UpdateInfo, check_update}
use knowledge_flywheel.Updater.Update.{
  UpdateStatus, failed, up_to_date, Centre, UpdateResult, with_state, restart, is_corrupt,
  verify_download, fetch, perform_update,
}

-- A run that ended as failed and started no script; the result and the state give the same text.
abbrev pub EndsFailed : Centre → UpdateResult × Centre → Type 0
EndsFailed before (r, c) =
    (r.done ≡ false)
    × (c.state.status ≡ failed)
    × (c.state.message ≡ r.text)
    × (c.spawned ≡ before.spawned)

restart-EndsFailed :
    (m : Machine) (latest : String) (c : Centre) → EndsFailed c (restart m latest c)
unfolding restart
restart-EndsFailed m latest c = (refl, refl, refl, refl)

verify_download-EndsFailed :
    (m : Machine) (info : UpdateInfo) (bytes : List ℕ) (c : Centre)
    → EndsFailed c (verify_download m info bytes c)
unfolding verify_download
verify_download-EndsFailed m info bytes c = elim (Bool-cases (is_corrupt m info.sha256 bytes)) [
  | inl corrupt ↦ rw (corrupt, verify_download) (refl, refl, refl, refl)
  | inr sound ↦
      rw (sound, verify_download)
        (restart-EndsFailed m info.latest_version (record c { next_file = some bytes }))
]

fetch-EndsFailed :
    (m : Machine) (info : UpdateInfo) (url : String) (c : Centre)
    → EndsFailed c (fetch m info url c)
unfolding fetch
fetch-EndsFailed m info url c = elim (Result-cases (m.download url)) [
  | inr (text, raised) ↦ rw (fetch, raised) (refl, refl, refl, refl)
  | inl (bytes, loaded) ↦
      rw (fetch, loaded)
        (verify_download-EndsFailed m info bytes (
          with_state UpdateStatus.running ("下载 " <> info.latest_version <> " 中…")
            info.latest_version c))
]

-- An update either finds that there is nothing to do, when the release could be asked and offers nothing
-- newer for the platform, or it ends as failed, with the same text in the result and in the state. In no
-- case is the script that restarts the centre started, not even for a download with the right digest.
pub perform_update_never_restarts :
    (m : Machine) (c : Centre)
    → let (r, c') = perform_update m c in
      ((info : UpdateInfo) × (check_update m ≡ ok info)
        × (info.update_available ≡ false)
        × (r.done ≡ true)
        × (c'.state.status ≡ up_to_date)
        × (c'.spawned ≡ c.spawned))
      ⊎ EndsFailed c (perform_update m c)
unfolding perform_update
perform_update_never_restarts m c = elim (Result-cases (check_update m)) [
  | inr (text, raised) ↦ rw (perform_update, raised) (inr (refl, refl, refl, refl))
  | inl (info, asked) ↦ elim (Bool-cases info.update_available) [
    | inr nothing ↦
        let (done, status, kept) = idle_end info asked nothing in
        inl (info, asked, nothing, done, status, kept)
    | inl newer ↦ elim (Option-cases info.asset_url) [
      | inl unknown ↦ simp (perform_update, asked, newer, unknown) (inr (refl, refl, refl, refl))
      | inr (url, known) ↦ elim (Bool-cases (str_eq url "")) [
        | inl blank ↦
            simp (perform_update, asked, newer, known, blank) (inr (refl, refl, refl, refl))
        | inr given ↦
            simp (perform_update, asked, newer, known, given)
              (inr (fetch-EndsFailed m info url (with_state UpdateStatus.running "检查最新版本…" "" c)))
      ]
    ]
  ]
]
  where
    idle_end :
        (info : UpdateInfo)
        → check_update m ≡ ok info
        → info.update_available ≡ false
        → ((perform_update m c).0.done ≡ true)
          × ((perform_update m c).1.state.status ≡ up_to_date)
          × ((perform_update m c).1.spawned ≡ c.spawned)
    idle_end info asked nothing = simp (perform_update, asked, nothing) (refl, refl, refl)
