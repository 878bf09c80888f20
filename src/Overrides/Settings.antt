-- ===== src/Overrides/Settings.antt =====
-- get_effective_setting, list_overrides, set_override and mask_secret.
use knowledge_flywheel.Base.{
  zero, suc, ℕ, ◌+◌, ◌-◌, String, Bool, true, false, ◌&&◌, Option, none, some, List, [], ◌∷◌, ◌++◌,
  leb, ◌==◌, str_eq, if◌then◌else◌, any, map, length, take, drop, Result, ok, err, ◌<>◌,
}
use Prim.Native.Char.{code}
use knowledge_flywheel.Store.Table.{select, first, add, put, remove, next_id}
use knowledge_flywheel.Models.Support.{SettingsOverride, override_entity}
use knowledge_flywheel.Models.Session.{Session, commit}
use knowledge_flywheel.Parse.Split.{Text, strip, is_empty}

-- The code points of a text.
abbrev pub codes : String → Text
codes String.[] = []
codes (String.◌∷◌ c s) = code c ∷ codes s

abbrev pub text_eq : Text → Text → Bool
text_eq [] [] = true
text_eq (c ∷ cs) (d ∷ ds) = c == d && text_eq cs ds
text_eq _ _ = false

-- `lower()`, as far as a comparison with ASCII letters tells: no other letter is lowered to one of
-- "true", "yes" and "on".
unfoldable pub lower : Text → Text
lower [] = []
lower (c ∷ cs) = (if leb 65 c && leb c 90 then c + 32 else c) ∷ lower cs

pub data SettingKind : Type 0 where
  plain secret flag decimal : SettingKind

-- WRITABLE_KEYS
abbrev pub writable_keys : List (String × SettingKind)
writable_keys =
    ("dify_base_url", plain)
    ∷ ("dify_api_key", secret)
    ∷ ("dify_dataset_id", plain)
    ∷ ("rag_strict", flag)
    ∷ ("rag_min_score", decimal)
    ∷ ("boost_enabled", flag)
    ∷ ("boost_weight", decimal)
    ∷ ("gap_summary_interval_hours", decimal)
    ∷ ("knowledge_categories", plain)
    ∷ []

unfoldable pub kind_in : String → List (String × SettingKind) → Option SettingKind
kind_in key [] = none
kind_in key ((k, kind) ∷ rest) = if str_eq k key then some kind else kind_in key rest

abbrev pub is_writable : String → Bool
is_writable key = elim (kind_in key writable_keys) [ none ↦ false | some _ ↦ true ]

-- SECRET_KEYS
abbrev pub is_secret_key : String → Bool
is_secret_key key = str_eq key "dify_api_key"

-- A value as the callers get it. A decimal is what `float` makes of the text.
pub data SettingValue (F : Type 0) : Type 0 where
  text_value : Text → SettingValue F
  flag_value : Bool → SettingValue F
  decimal_value : F → SettingValue F

abbrev pub is_on : Text → Bool
is_on value = any (text_eq (lower (strip value))) (map codes ("1" ∷ "true" ∷ "yes" ∷ "on" ∷ []))

abbrev pub override_of : String → Session → Option SettingsOverride
override_of key db = first (λ (s : SettingsOverride). str_eq s.key key) db.settings_overrides

-- The rest of `get_effective_setting`, by the kind of the key; `float_of` is `float`, none where it
-- raises. A key without a kind is plain.
unfoldable pub read_as :
    {F : Type 0} → (Text → Option F) → Option SettingKind → Text → SettingValue F → SettingValue F
read_as float_of (some flag) value default = flag_value (is_on value)
read_as float_of (some decimal) value default = elim (float_of value) [
  | none ↦ default
  | some f ↦ decimal_value f
]
read_as float_of _ value default = text_value value

-- `get_effective_setting`
unfoldable pub get_effective_setting :
    {F : Type 0} → (Text → Option F) → String → SettingValue F → Session → SettingValue F
unfolding read_as
get_effective_setting float_of key default db = elim (override_of key db) [
  | none ↦ default
  | some row ↦ read_as float_of (kind_in key writable_keys) row.value default
]

abbrev pub dots : ℕ → Text
dots zero = []
dots (suc n) = 8226 ∷ dots n

-- `mask_secret`
unfoldable pub mask_secret : Text → Text
mask_secret value =
    if is_empty value
    then []
    else if leb (length value) 8
    then dots (length value)
    else take 4 value ++ (dots 6 ++ drop (length value - 4) value)

unfoldable pub shown : SettingsOverride → Text
unfolding mask_secret
shown row =
    if is_secret_key row.key && leb 1 (length row.value) then mask_secret row.value else row.value

abbrev pub every_override : SettingsOverride → Bool
every_override row = true

-- `list_overrides`: the items of the dictionary.
unfoldable pub list_overrides : Session → List (String × Text)
unfolding shown
list_overrides db =
    map (λ (row : SettingsOverride). (row.key, shown row))
      (select every_override db.settings_overrides)

unfoldable pub new_override : ℕ → String → Text → Session → SettingsOverride
new_override now key value db = record {
  id = next_id db.settings_overrides;
  key = key;
  value = value;
  updated_at = now;
}

-- The rest of `set_override`, for a writable key, by the row that it has.
unfoldable pub write_override : ℕ → String → Text → Option SettingsOverride → Session → Session
unfolding new_override
write_override now key [] none db = db
write_override now key [] (some row) db =
    commit (record db { settings_overrides = remove row db.settings_overrides })
write_override now key (c ∷ cs) none db = commit (record db {
  settings_overrides = add (new_override now key (c ∷ cs) db) db.settings_overrides;
})
write_override now key (c ∷ cs) (some row) db = commit (record db {
  settings_overrides = put (record row { value = c ∷ cs; updated_at = now }) db.settings_overrides;
})

-- `set_override`
unfoldable pub set_override : ℕ → String → Text → Session → Result Bool × Session
unfolding write_override
set_override now key value db =
    if is_writable key
    then (ok true, write_override now key value (override_of key db) db)
    else (err ("key not writable: " <> key), db)
