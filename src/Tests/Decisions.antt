-- ===== src/Tests/Decisions.antt =====
-- The theorem on reviews at a small table.
use knowledge_flywheel.Base.{none, some, [], ◌∷◌, ◌≡◌, refl, ok, err}
use knowledge_flywheel.Store.Table.{select, get, loaded}
use knowledge_flywheel.Models.Status.{ProposalStatus}
use knowledge_flywheel.Models.Rows.{Proposal, proposal_entity}
use knowledge_flywheel.Models.Session.{Session}
use knowledge_flywheel.Proposals.Review.{approve, reject, decided, proposal_review}
use knowledge_flywheel.Proposals.Once.{proposal_reviewed_once}
use knowledge_flywheel.Tests.Samples.{empty_session}

abbrev open_proposal : Proposal
open_proposal = record {
  id = 2;
  kind = "document_review";
  title = "plan";
  body = [];
  status = ProposalStatus.pending;
  created_by = "dsh-adapter";
  reviewed_by = none;
  reviewed_at = none;
  created_at = 10;
}

abbrev one_proposal : Session
one_proposal = record empty_session { proposals = loaded open_proposal ∷ [] }

abbrev approved_proposal : Proposal
approved_proposal = record open_proposal {
  status = ProposalStatus.approved;
  reviewed_by = some "admin";
  reviewed_at = some 50;
}

review_succeeds : (proposal_review 50 2 approve "admin" one_proposal).0 ≡ ok approved_proposal
unfolding proposal_review select
review_succeeds = refl

proposal_reviewed_once_example :
    let db' = (proposal_review 50 2 approve "admin" one_proposal).1 in
    (approved_proposal.status ≡ decided approve)
    × (get 2 db'.proposals ≡ some approved_proposal)
    × (proposal_review 60 2 reject "auditor" db' ≡ (err "proposal already reviewed", db'))
proposal_reviewed_once_example =
    proposal_reviewed_once 50 60 2 approve reject "admin" "auditor" one_proposal approved_proposal
      (refl, tt) review_succeeds
