-- ===== src/Updater/Release.antt =====
-- current_version, platform_asset_name and check_update. A digest is a list of code points.
use knowledge_flywheel.Base.{
  ℕ, zero, suc, String, Bool, false, ◌&&◌, ◌||◌, not, Option, none, some, List, [], ◌∷◌, str_eq,
  if◌then◌else◌, take, Result, ok, err, ◌<>◌,
}
use knowledge_flywheel.Config.{Settings}
use knowledge_flywheel.Parse.Split.{Text}
use knowledge_flywheel.Overrides.Settings.{codes, text_eq}

-- One entry of `assets` of a release.
pub record Asset : Type 0 where
  pub name : String
  pub digest : Option String
  pub browser_download_url : Option String

-- What GitHub answers.
pub record Release : Type 0 where
  pub tag_name : String
  pub published_at : Option String
  pub assets : List Asset

-- What the updater takes from outside: the answer of the request, the platform's names in lower case,
-- a download, the SHA-256 of bytes, and the text of the TypeError of a bad call.
pub record Machine : Type 0 where
  pub settings : Settings
  pub latest_release : Result Release
  pub system : String
  pub machine : String
  pub download : String → Result (List ℕ)
  pub sha256 : List ℕ → String
  pub type_error : String

-- `current_version`
abbrev pub current_version : Settings → String
current_version s = if str_eq s.app_version "" then "dev" else s.app_version

-- `platform_asset_name`
unfoldable pub platform_asset_name : Machine → Option String
platform_asset_name m =
    if str_eq m.system "windows"
    then some "knowledge-center.exe"
    else if str_eq m.system "darwin"
    then if str_eq m.machine "arm64" || str_eq m.machine "aarch64"
      then some "knowledge-center-darwin-arm64"
      else some "knowledge-center-darwin-amd64"
    else none

-- The asset with a name: of two, the dictionary keeps the later.
unfoldable pub asset_named : String → List Asset → Option Asset
asset_named name [] = none
asset_named name (a ∷ rest) = elim (asset_named name rest) [
  | some later ↦ some later
  | none ↦ if str_eq a.name name then some a else none
]

-- `.replace("sha256:", "")`: `skip` characters belong to the marker that was found last.
unfoldable pub without_marker : ℕ → Text → Text
without_marker skip [] = []
without_marker (suc skip) (c ∷ cs) = without_marker skip cs
without_marker zero (c ∷ cs) =
    let marked = without_marker 6 cs in
    let plain = without_marker zero cs in
    if text_eq (take 7 (c ∷ cs)) (codes "sha256:") then marked else c ∷ plain

-- The digest of the asset, none where it is empty.
unfoldable pub digest_of : Asset → Option Text
unfolding without_marker
digest_of a = elim a.digest [
  | none ↦ none
  | some digest ↦ elim (without_marker 0 (codes digest)) [ [] ↦ none | c ∷ cs ↦ some (c ∷ cs) ]
]

-- What `check_update` returns, where it could ask.
pub record UpdateInfo : Type 0 where
  pub current : String
  pub latest_version : String
  pub published_at : Option String
  pub platform_asset : Option String
  pub asset_url : Option String
  pub sha256 : Option Text
  pub update_available : Bool

unfoldable pub info_of : Machine → Release → Option Asset → UpdateInfo
unfolding platform_asset_name digest_of
info_of m release asset = record {
  current = current_version m.settings;
  latest_version = release.tag_name;
  published_at = release.published_at;
  platform_asset = platform_asset_name m;
  asset_url = elim asset [ none ↦ none | some a ↦ a.browser_download_url ];
  sha256 = elim asset [ none ↦ none | some a ↦ digest_of a ];
  update_available = elim asset [
    | none ↦ false
    | some a ↦
        not (str_eq release.tag_name "")
        && not (str_eq release.tag_name (current_version m.settings))
  ];
}

-- `check_update`
unfoldable pub check_update : Machine → Result UpdateInfo
unfolding info_of asset_named platform_asset_name
check_update m = elim m.latest_release [
  | err raised ↦ err ("无法连接 GitHub Release：" <> raised)
  | ok release ↦ ok (
      info_of m release (elim (platform_asset_name m) [
        | none ↦ none
        | some want ↦ asset_named want release.assets
      ]))
]
