-- ===== src/Models/Json.antt =====
-- JSON values, as far as the code looks into them: an object's fields are a list of key and value.
use knowledge_flywheel.Base.{
  ℕ, String, Bool, true, false, List, [], ◌∷◌, Option, none, some, str_eq, if◌then◌else◌,
}

-- `compound` is a list, an object or a number that is no natural number, by its text.
pub data Json : Type 0 where
  null : Json
  bool : Bool → Json
  num : ℕ → Json
  str : String → Json
  compound : String → Json

abbrev pub Payload : Type 0
Payload = List (String × Json)

-- `payload.get(key)`
unfoldable pub get_field : String → Payload → Json
get_field key [] = null
get_field key ((k, v) ∷ rest) = if str_eq k key then v else get_field key rest

-- The value, where it is an integer, as `db.get` compares it with a key.
abbrev pub as_num : Json → Option ℕ
as_num (num n) = some n
as_num (bool true) = some 1
as_num (bool false) = some 0
as_num _ = none

abbrev pub as_str : Json → Option String
as_str (str s) = some s
as_str _ = none
