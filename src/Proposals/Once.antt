-- ===== src/Proposals/Once.antt =====
-- review_proposal through its handler, called twice for one proposal.
use knowledge_flywheel.Base.{
  ℕ, String, true, false, none, some, ◌≡◌, refl, ap, sym, ◌∙◌, Bool-cases, Option-cases, inl, inr,
  ok, err, ◌==◌,
}
use knowledge_flywheel.Store.Table.{IsClean, first, get, put, flush}
use knowledge_flywheel.Store.Laws.{first-flush-put, first_test}
use knowledge_flywheel.Models.Status.{ProposalStatus, proposal_is}
use knowledge_flywheel.Models.Rows.{Proposal, proposal_entity}
use knowledge_flywheel.Models.Session.{Session, commit, audit}
use knowledge_flywheel.Proposals.Review.{
  Decision, approve, reject, decided, reviewed, save_proposal, review_proposal, proposal_review,
}

decided-not_pending : (d : Decision) → proposal_is (decided d) ProposalStatus.pending ≡ false
decided-not_pending approve = refl
decided-not_pending reject = refl

reviewed_id :
    (now : ℕ) (d : Decision) (who : String) (p : Proposal) → (reviewed now d who p).id ≡ p.id
unfolding reviewed
reviewed_id now d who p = refl

reviewed_status :
    (now : ℕ) (d : Decision) (who : String) (p : Proposal)
    → (reviewed now d who p).status ≡ decided d
unfolding reviewed
reviewed_status now d who p = refl

review_open :
    (now n : ℕ) (d : Decision) (who : String) (db : Session) (p : Proposal)
    → get n db.proposals ≡ some p
    → proposal_is p.status ProposalStatus.pending ≡ true
    → ((proposal_review now n d who db).0 ≡ ok (reviewed now d who p))
      × ((proposal_review now n d who db).1.proposals
          ≡ flush (put (reviewed now d who p) db.proposals))
unfolding proposal_review review_proposal commit audit save_proposal
review_open now n d who db p found open_proposal =
    rw (found, proposal_review, open_proposal) (refl, refl)

review_closed :
    (now n : ℕ) (d : Decision) (who : String) (db : Session) (p : Proposal)
    → get n db.proposals ≡ some p
    → proposal_is p.status ProposalStatus.pending ≡ false
    → proposal_review now n d who db ≡ (err "proposal already reviewed", db)
unfolding proposal_review review_proposal
review_closed now n d who db p found over = rw (found, proposal_review, over) refl

review_missing :
    (now n : ℕ) (d : Decision) (who : String) (db : Session)
    → get n db.proposals ≡ none
    → proposal_review now n d who db ≡ (err "proposal not found", db)
unfolding proposal_review
review_missing now n d who db missing = rw (missing, proposal_review) refl

-- Over committed proposals: once a review has succeeded, the proposal has the decision, and every
-- later review of it, by whomever and with whatever decision, is refused and changes nothing.
pub proposal_reviewed_once :
    (now later n : ℕ) (d d' : Decision) (who who' : String) (db : Session) (p : Proposal)
    → IsClean db.proposals
    → (proposal_review now n d who db).0 ≡ ok p
    → let db' = (proposal_review now n d who db).1 in
      (p.status ≡ decided d)
      × (get n db'.proposals ≡ some p)
      × (proposal_review later n d' who' db' ≡ (err "proposal already reviewed", db'))
proposal_reviewed_once now later n d d' who who' db p c made =
    elim (Option-cases (get n db.proposals)) [
      | inl missing ↦ cc (rw (review_missing now n d who db missing) at made)
      | inr (q, found) ↦ elim (Bool-cases (proposal_is q.status ProposalStatus.pending)) [
        | inr over ↦ cc (rw (review_closed now n d who db q found over) at made)
        | inl open_proposal ↦
            let (result, rows) = review_open now n d who db q found open_proposal in
            let same : reviewed now d who q ≡ p = cc (sym result ∙ made) in
            let status : p.status ≡ decided d =
              ap (λ (x : Proposal). x.status) (sym same) ∙ reviewed_status now d who q in
            let found' : get n (proposal_review now n d who db).1.proposals ≡ some p =
              ap (first (λ (x : Proposal). x.id == n)) rows
              ∙ first-flush-put (λ (x : Proposal). x.id == n) db.proposals q (reviewed now d who q)
                  c (reviewed_id now d who q)
                  (ap (λ k. k == n) (reviewed_id now d who q)
                    ∙ first_test (λ (x : Proposal). x.id == n) db.proposals q c found)
                  found
              ∙ ap some same in
            (
              status,
              found',
              review_closed later n d' who' (proposal_review now n d who db).1 p found'
                  (ap (λ s. proposal_is s ProposalStatus.pending) status ∙ decided-not_pending d),
            )
      ]
    ]
