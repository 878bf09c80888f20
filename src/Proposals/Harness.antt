-- ===== src/Proposals/Harness.antt =====
-- review_document of knowledge-hub/app/dsh_client.py, with its call and its fallback.
use knowledge_flywheel.Base.{
  String, Bool, ◌||◌, List, [], ◌∷◌, ◌++◌, any, if◌then◌else◌, length, take, Result, ok, err, ◌<>◌,
}
use knowledge_flywheel.Models.Json.{Json, str, compound, Payload, get_field}
use knowledge_flywheel.Parse.Split.{Text, strip, is_empty}
use knowledge_flywheel.Overrides.Settings.{codes, text_eq, lower}
use knowledge_flywheel.Execution.Setup.{shown_json, is_truthy}

-- The confidence is a float that is only stored: its text.
pub record DshResult : Type 0 where
  pub provider : String
  pub status : String
  pub kind : String
  pub verdict : String
  pub confidence : String
  pub summary : String
  pub raw : Payload

-- What the client takes from outside: whether it is enabled, the request to a path of the service with a title and a content,
-- `float` of a value, and `json.dumps` of a dictionary and of a list of texts.
pub record Harness : Type 0 where
  pub enabled : Bool
  pub post_dsh : String → String → Text → Result Payload
  pub float_text : Json → Result String
  pub json_text : Payload → String
  pub json_list : List String → String

unfoldable pub contains : Text → Text → Bool
contains needle [] = is_empty needle
contains needle (c ∷ cs) =
    let rest = contains needle cs in text_eq (take (length needle) (c ∷ cs)) needle || rest

-- The markers of secrets.
abbrev pub markers : List String
markers = "password=" ∷ "secret_key" ∷ "api_key=" ∷ "private key" ∷ []

unfoldable pub suspicions : Text → List String
unfolding contains
suspicions content =
    let text = strip content in
    (if is_empty text then "empty document" ∷ [] else [])
    ++ (if any (λ m. contains (codes m) (lower text)) markers
        then "possible secrets in document" ∷ []
        else [])

-- `"；".join(...)`
abbrev pub joined : List String → String
joined [] = ""
joined (s ∷ []) = s
joined (s ∷ t ∷ ts) = s <> "；" <> joined (t ∷ ts)

abbrev pub summary_of : List String → String
summary_of [] = "未发现确定性规则层面的明显风险"
summary_of (s ∷ ss) = joined (s ∷ ss)

abbrev pub verdict_of : List String → String
verdict_of [] = "ok"
verdict_of (s ∷ ss) = "flag"

-- `_deterministic_review`
unfoldable pub deterministic_review : Harness → Text → DshResult
unfolding suspicions
deterministic_review h content =
    let suspicious = suspicions content in
    record {
      provider = "deterministic_review_fallback";
      status = "degraded";
      kind = "document_review";
      verdict = verdict_of suspicious;
      confidence = "0.5";
      summary = summary_of suspicious;
      raw = ("suspicious", compound (h.json_list suspicious)) ∷ [];
    }

-- `raw.get(a) or raw.get(b) or default`
abbrev pub either_field : String → String → Json → Payload → Json
either_field a b default raw =
    if is_truthy (get_field a raw)
    then get_field a raw
    else if is_truthy (get_field b raw)
    then get_field b raw
    else default

-- The answer of the service, where its confidence is a number.
unfoldable pub answered : Harness → String → Payload → Result DshResult
answered h kind raw = elim (h.float_text (either_field "confidence" "score" (compound "0.0") raw)) [
  | err raised ↦ err raised
  | ok confidence ↦ ok (record {
    provider = "deepseek-harness";
    status = "ready";
    kind = kind;
    verdict = shown_json (either_field "verdict" "decision" (str "unknown") raw);
    confidence = confidence;
    summary = shown_json (either_field "summary" "reason" (str (h.json_text raw)) raw);
    raw = raw;
  })
]

-- The fallback of a review, with the text of what was raised.
unfoldable pub fallback : Harness → Text → String → DshResult
unfolding deterministic_review
fallback h content raised =
    let result = deterministic_review h content in
    record result { raw = result.raw ++ ("dsh_error", str raised) ∷ [] }

-- `review_document`, which is `_call` for a document review.
unfoldable pub review_document : Harness → String → Text → DshResult
unfolding answered fallback
review_document h title content =
    if h.enabled
    then elim (h.post_dsh "/v1/review" title content) [
      | err raised ↦ fallback h content raised
      | ok raw ↦ elim (answered h "document_review" raw) [
        | err raised ↦ fallback h content raised
        | ok result ↦ result
      ]
    ]
    else record {
      provider = "disabled";
      status = "disabled";
      kind = "document_review";
      verdict = "skip";
      confidence = "0.0";
      summary = "DeepSeek-Harness is disabled";
      raw = [];
    }
