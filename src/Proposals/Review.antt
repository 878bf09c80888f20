-- ===== src/Proposals/Review.antt =====
-- The operations on proposal rows.
use knowledge_flywheel.Base.{
  ℕ, String, not, none, some, [], if◌then◌else◌, show, Result, ok, err, ◌<>◌,
}
use knowledge_flywheel.Store.Table.{get, put}
use knowledge_flywheel.Models.Status.{ProposalStatus, proposal_is, approved, rejected}
use knowledge_flywheel.Models.Rows.{Proposal, proposal_entity}
use knowledge_flywheel.Models.Session.{Session, commit, audit}

-- The decisions that ProposalReview takes.
pub data Decision : Type 0 where
  approve reject : Decision

abbrev pub decided : Decision → ProposalStatus
decided approve = approved
decided reject = rejected

abbrev pub decision_text : Decision → String
decision_text approve = "approved"
decision_text reject = "rejected"

unfoldable pub reviewed : ℕ → Decision → String → Proposal → Proposal
reviewed now decision reviewer p = record p {
  status = decided decision;
  reviewed_by = some reviewer;
  reviewed_at = some now;
}

unfoldable pub save_proposal : Proposal → Session → Session
save_proposal p db = record db { proposals = put p db.proposals }

-- `review_proposal`
unfoldable pub review_proposal :
    ℕ → Proposal → Decision → String → Session → Result Proposal × Session
unfolding reviewed save_proposal
review_proposal now p decision reviewer db =
    if not (proposal_is p.status ProposalStatus.pending)
    then (err "proposal already reviewed", db)
    else (
      ok (reviewed now decision reviewer p),
      commit (
          audit reviewer ("proposal." <> decision_text decision) "proposal" (show p.id) []
            (save_proposal (reviewed now decision reviewer p) db)),
    )

-- The handler, without its HTTP status codes.
unfoldable pub proposal_review : ℕ → ℕ → Decision → String → Session → Result Proposal × Session
unfolding review_proposal
proposal_review now proposal_id decision reviewer db = elim (get proposal_id db.proposals) [
  | none ↦ (err "proposal not found", db)
  | some p ↦ review_proposal now p decision reviewer db
]
