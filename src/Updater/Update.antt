-- ===== src/Updater/Update.antt =====
-- perform_update.
use knowledge_flywheel.Base.{
  ℕ, String, Bool, true, false, not, Option, none, some, List, str_eq, if◌then◌else◌, Result, ok,
  err, ◌<>◌,
}
use knowledge_flywheel.Parse.Split.{Text}
use knowledge_flywheel.Overrides.Settings.{codes, text_eq}
use knowledge_flywheel.Updater.Release.{Machine, UpdateInfo, check_update}

pub data UpdateStatus : Type 0 where
  idle running failed up_to_date restarting : UpdateStatus

-- `_update_state`
pub record UpdateState : Type 0 where
  pub status : UpdateStatus
  pub message : String
  pub latest_version : String

-- The state, the file that was downloaded beside the executable, and whether the script that swaps the
-- two and restarts was started.
pub record Centre : Type 0 where
  pub state : UpdateState
  pub next_file : Option (List ℕ)
  pub spawned : Bool

-- What `perform_update` returns: `ok` and the text.
pub record UpdateResult : Type 0 where
  pub done : Bool
  pub text : String

abbrev pub with_state : UpdateStatus → String → String → Centre → Centre
with_state status message latest c = record c {
  state = record { status = status; message = message; latest_version = latest };
}

-- A branch that ends as failed.
abbrev pub ends_failed : String → String → Centre → UpdateResult × Centre
ends_failed message latest c =
    (record { done = false; text = message }, with_state failed message latest c)

-- The `except` clause; the latest version stays what it was.
abbrev pub raises : String → Centre → UpdateResult × Centre
raises raised c = ends_failed ("更新失败：" <> raised) c.state.latest_version c

-- `_write_swap_script`: on each platform the lines are joined by a call with the keyword `encoding`,
-- which `str.join` does not take.
abbrev pub write_swap_script : Machine → Result String
write_swap_script m = err m.type_error

-- From the script on.
unfoldable pub restart : Machine → String → Centre → UpdateResult × Centre
restart m latest c = elim (write_swap_script m) [
  | err raised ↦ raises raised c
  | ok script ↦ (
    record { done = true; text = "已下载并校验，即将重启…" },
    with_state restarting "已下载并校验，即将重启…" latest (record c { spawned = true }),
  )
]

-- `digest != info["sha256"]`, where the release has a digest.
abbrev pub is_corrupt : Machine → Option Text → List ℕ → Bool
is_corrupt m none bytes = false
is_corrupt m (some digest) bytes = not (text_eq (codes (m.sha256 bytes)) digest)

-- From the check of the digest on.
unfoldable pub verify_download : Machine → UpdateInfo → List ℕ → Centre → UpdateResult × Centre
unfolding restart
verify_download m info bytes c =
    if is_corrupt m info.sha256 bytes
    then ends_failed "SHA-256 校验失败，已中止" info.latest_version (record c { next_file = none })
    else restart m info.latest_version (record c { next_file = some bytes })

-- From the download on.
unfoldable pub fetch : Machine → UpdateInfo → String → Centre → UpdateResult × Centre
unfolding verify_download
fetch m info url c =
    let c' = with_state running ("下载 " <> info.latest_version <> " 中…") info.latest_version c in
    elim (m.download url) [
      | err raised ↦ raises raised c'
      | ok bytes ↦ verify_download m info bytes c'
    ]

-- `perform_update`
unfoldable pub perform_update : Machine → Centre → UpdateResult × Centre
unfolding fetch
perform_update m c =
    let c' = with_state running "检查最新版本…" "" c in
    elim (check_update m) [
      | err raised ↦ ends_failed raised "" c'
      | ok info ↦
          if info.update_available
          then elim info.asset_url [
            | none ↦ ends_failed "当前平台没有可下载的中心端二进制" info.latest_version c'
            | some url ↦
                if str_eq url ""
                then ends_failed "当前平台没有可下载的中心端二进制" info.latest_version c'
                else fetch m info url c'
          ]
          else (
            record { done = true; text = "已是最新版本" },
            with_state up_to_date "已是最新版本" info.latest_version c',
          )
    ]
