-- ===== src/Overrides/Refinement.antt =====
-- The table of overrides as a function from keys to values.
use knowledge_flywheel.Base.{
  ◌<>◌, ◌⊎◌, ℕ, String, Bool, true, false, Option, none, some, List, [], ◌∷◌, ◌≡◌, refl, ap, sym,
  ◌∙◌, All, All-mono, Member, AllDistinct, map, Bool-cases, inl, inr, str_eq, eq_iff, eq_refl,
  if◌then◌else◌, ok, err,
}
use mathlib.Core.Path.{fun_ext}
use knowledge_flywheel.Store.Table.{IsClean, first, head?, add, put, remove, flush, live_rows}
use knowledge_flywheel.Store.Laws.{select_clean, first-flush-add, first-flush-put, first_test}
use knowledge_flywheel.Store.Keyed.{
  distinct_at, head?-Member, first-flush-add_other, first-flush-put_other, first-flush-remove_other,
  first-flush-remove_self,
}
use knowledge_flywheel.Models.Support.{SettingsOverride, override_entity}
use knowledge_flywheel.Models.Session.{Session, commit}
use knowledge_flywheel.Parse.Split.{Text}
use knowledge_flywheel.Overrides.Settings.{
  override_of, is_writable, new_override, write_override, set_override,
}

abbrev pub overrides_of : Session → List SettingsOverride
overrides_of db = live_rows db.settings_overrides

-- The unique columns of the table.
pub record IsKeyed (rows : List SettingsOverride) : Type 0 where
  pub ids : AllDistinct (map (λ (s : SettingsOverride). s.id) rows)
  pub keys : AllDistinct (map (λ (s : SettingsOverride). s.key) rows)

abbrev value_of : Option SettingsOverride → Option Text
value_of none = none
value_of (some row) = some row.value

-- What the table says: the value of a key, where it is overridden.
abbrev pub view : Session → String → Option Text
view db key = value_of (override_of key db)

-- The abstract write: the empty text clears the key.
abbrev pub written : (String → Option Text) → String → Text → String → Option Text
written f key value k =
    if str_eq k key then elim value [ [] ↦ none | c ∷ cs ↦ some (c ∷ cs) ] else f k

abbrev has_key : String → SettingsOverride → Bool
has_key key s = str_eq s.key key

other_key : (k key : String) → str_eq k key ≡ false → str_eq key k ≡ false
other_key k key e = elim (Bool-cases (str_eq key k)) [
  | inl same ↦ cc (sym e ∙ ap (str_eq k) ((eq_iff key k).0 same) ∙ eq_refl k)
  | inr apart ↦ apart
]

found_Member :
    (db : Session) (key : String) (row : SettingsOverride)
    → IsClean db.settings_overrides
    → override_of key db ≡ some row
    → Member row (overrides_of db)
found_Member db key row c found =
    head?-Member (has_key key) (overrides_of db) row
      (ap head? (sym (select_clean (has_key key) db.settings_overrides c)) ∙ found)

-- A row with the primary key of the row of `key` is not the row of another key.
others_miss :
    (db : Session) (key k : String) (row : SettingsOverride)
    → IsClean db.settings_overrides
    → IsKeyed (overrides_of db)
    → override_of key db ≡ some row
    → str_eq k key ≡ false
    → All (λ (x : SettingsOverride). x.id ≡ row.id → has_key k x ≡ false) (overrides_of db)
others_miss db key k row c u found apart =
    All-mono _ _ (overrides_of db) (λ x same e. ap (has_key k) (same e) ∙ miss)
      (distinct_at (λ (s : SettingsOverride). s.id) row (overrides_of db) u.ids
        (found_Member db key row c found))
  where
    miss : has_key k row ≡ false
    miss =
        ap (λ x. str_eq x k)
          ((eq_iff row.key key).0 (first_test (has_key key) db.settings_overrides row c found))
        ∙ other_key k key apart

-- The row of a key is the only one with it.
only_row :
    (db : Session) (key : String) (row : SettingsOverride)
    → IsClean db.settings_overrides
    → IsKeyed (overrides_of db)
    → override_of key db ≡ some row
    → All (λ (x : SettingsOverride). has_key key x ≡ true → x ≡ row) (overrides_of db)
only_row db key row c u found =
    All-mono _ _ (overrides_of db)
      (λ x same hit. same (
        (eq_iff x.key key).0 hit
        ∙ sym
            ((eq_iff row.key key).0 (first_test (has_key key) db.settings_overrides row c found))))
      (distinct_at (λ (s : SettingsOverride). s.key) row (overrides_of db) u.keys
        (found_Member db key row c found))

-- What the written table finds for a key, by the row that the written key has and the value.
write-view :
    (now : ℕ) (key : String) (value : Text) (o : Option SettingsOverride) (db : Session)
    (k : String)
    → IsClean db.settings_overrides
    → IsKeyed (overrides_of db)
    → override_of key db ≡ o
    → view (write_override now key value o db) k ≡ written (view db) key value k
unfolding write_override commit new_override
write-view now key [] none db k c u found = elim (Bool-cases (str_eq k key)) [
  | inl own ↦
      let at_key : override_of k db ≡ none = rw ((eq_iff k key).0 own) found in
      rw own (ap value_of at_key)
  | inr apart ↦ rw apart refl
]
write-view now key [] (some row) db k c u found = elim (Bool-cases (str_eq k key)) [
  | inl own ↦
      let at_key : first (has_key k) (flush (remove row db.settings_overrides)) ≡ none =
        rw ((eq_iff k key).0 own) (
          first-flush-remove_self (has_key key) db.settings_overrides row
            (only_row db key row c u found)) in
      rw own (ap value_of at_key)
  | inr apart ↦ rw apart (
      ap value_of (
        first-flush-remove_other (has_key k) db.settings_overrides row c
          (others_miss db key k row c u found apart)))
]
write-view now key (d ∷ ds) none db k c u found =
    let row' = new_override now key (d ∷ ds) db in
    elim (Bool-cases (str_eq k key)) [
      | inl own ↦
          let at_key : first (has_key k) (flush (add row' db.settings_overrides)) ≡ some row' =
            rw ((eq_iff k key).0 own)
              (first-flush-add (has_key key) db.settings_overrides row' c (eq_refl key) found) in
          rw own (ap value_of at_key)
      | inr apart ↦ rw apart (
          ap value_of (
            first-flush-add_other (has_key k) db.settings_overrides row' c (other_key k key apart)))
    ]
write-view now key (d ∷ ds) (some row) db k c u found =
    let row' : SettingsOverride = record row { value = d ∷ ds; updated_at = now } in
    let hit = first_test (has_key key) db.settings_overrides row c found in
    elim (Bool-cases (str_eq k key)) [
      | inl own ↦
          let at_key : first (has_key k) (flush (put row' db.settings_overrides)) ≡ some row' =
            rw ((eq_iff k key).0 own)
              (first-flush-put (has_key key) db.settings_overrides row row' c refl hit found) in
          rw own (ap value_of at_key)
      | inr apart ↦ rw apart (
          ap value_of (
            first-flush-put_other (has_key k) db.settings_overrides row' c
              (ap (λ x. str_eq x k) ((eq_iff row.key key).0 hit) ∙ other_key k key apart)
              (others_miss db key k row c u found apart)))
    ]

-- Over committed overrides with distinct primary keys and distinct setting keys: `set_override`
-- refuses a key that is not writable and changes nothing; for a writable key it implements the
-- abstract write, so that afterwards every key has the value it had, but the written one, which has
-- the new value or, where that is empty, none.
pub set_override_refines :
    (now : ℕ) (key : String) (value : Text) (db : Session)
    → IsClean db.settings_overrides
    → IsKeyed (overrides_of db)
    → let (result, db') = set_override now key value db in
      ((is_writable key ≡ true) × (result ≡ ok true) × (view db' ≡ written (view db) key value))
      ⊎ ((is_writable key ≡ false) × (result ≡ err ("key not writable: " <> key)) × (db' ≡ db))
unfolding set_override
set_override_refines now key value db c u = elim (Bool-cases (is_writable key)) [
  | inl open_key ↦
      rw (open_key, set_override)
        (inl
          (refl, refl, fun_ext (λ k. write-view now key value (override_of key db) db k c u refl)))
  | inr shut ↦ rw (shut, set_override) (inr (refl, refl, refl))
]
