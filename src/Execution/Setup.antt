-- ===== src/Execution/Setup.antt =====
-- What a run takes from outside, and the look-ups that its branches share.
use knowledge_flywheel.Base.{
  ℕ, String, Bool, true, false, not, Option, none, some, List, [], ◌∷◌, ◌==◌, str_eq, if◌then◌else◌,
  any, show, Result, ok, err, ◌<>◌,
}
use knowledge_flywheel.Config.{Settings}
use knowledge_flywheel.Models.Json.{Json, null, bool, num, str, compound, Payload}
use knowledge_flywheel.Models.Rows.{FileRecord, file_entity}
use knowledge_flywheel.Models.Session.{Session}
use knowledge_flywheel.Parse.Split.{Text}
use knowledge_flywheel.Overrides.Settings.{codes}
use knowledge_flywheel.Commands.Ack.{json_eq, file_named}

-- What `embed_text` returns; the vector is only stored: its text.
pub record Embedding : Type 0 where
  pub vector : String
  pub provider : String
  pub status : String

-- The state of the pipeline.
pub record State : Type 0 where
  pub file_id : ℕ
  pub file_hash : Json
  pub content : Json

-- A node of the pipeline, with the database before and after it.
abbrev pub Stage : Type 0
Stage = State → Session → Result Payload × Session

abbrev pub Stages : Type 0
Stages = List (String × Payload)

-- The clock, the settings, and the calls that leave the program: SHA-256 of a text, the embedding
-- service, the Dify client, the backup, `json.dumps`, Python's `int` of a value with the text that it
-- raises, and the langgraph package, none where it cannot be imported, with a graph's `invoke`.
pub record Executor : Type 0 where
  pub settings : Settings
  pub now : ℕ
  pub sha256 : Text → String
  pub embed_text : Text → Embedding
  pub json_text : Payload → String
  pub json_list : List String → String
  pub int_of : Json → Result ℕ
  pub ingest_file_to_dify : ℕ → Session → Result Payload
  pub perform_backup : Result Payload
  pub langgraph : Option (List (String × Stage) → State → Session → Result Stages × Session)

-- A value in an f-string.
unfoldable pub shown_json : Json → String
shown_json null = "None"
shown_json (bool true) = "True"
shown_json (bool false) = "False"
shown_json (num n) = show n
shown_json (str s) = s
shown_json (compound text) = text

-- `bool(value)`
unfoldable pub is_truthy : Json → Bool
is_truthy null = false
is_truthy (bool b) = b
is_truthy (num n) = not (n == 0)
is_truthy (str s) = not (str_eq s "")
is_truthy (compound text) = not (any (str_eq text) ("[]" ∷ "{}" ∷ "0.0" ∷ "-0.0" ∷ []))

-- `isinstance(content, str) and content`
abbrev pub content_text : Json → Option Text
content_text (str s) = if str_eq s "" then none else some (codes s)
content_text _ = none

-- The two checks that begin most branches: the record, and its hash.
unfoldable pub lineage : Json → Json → Session → Result FileRecord
lineage file_id expected_hash db = elim (file_named file_id db) [
  | none ↦ err ("file record not found: " <> shown_json file_id)
  | some f ↦
      if json_eq (str f.file_hash) expected_hash
      then ok f
      else err ("file hash lineage mismatch for file: " <> shown_json file_id)
]
