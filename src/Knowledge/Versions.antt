-- ===== src/Knowledge/Versions.antt =====
-- backend/app/services/knowledge_versions.py: restoring a version, submitting and reviewing.
use wes.Base.{
  ℕ, ◌+◌, Bool, ◌&&◌, Option, none, some, [], ◌∷◌, ◌++◌, ◌==◌, Text, Action, pure, gets, or_raise,
  modify_state, ◌>>=◌, ◌>>◌, not_found, first,
}
use wes.Knowledge.State.{
  KnowledgeStatus, ReviewDecision, AccessAction, KnowledgeDocument, Change, KnowledgeVersion,
  KnowledgeReview, KnowledgeDb,
}
use wes.Knowledge.Documents.{get_document, write_document, snapshot, log}

abbrev pub is_version : ℕ → ℕ → KnowledgeVersion → Bool
is_version id version v = v.document_id == id && v.version == version

-- `get_version`
abbrev pub get_version : ℕ → ℕ → Action KnowledgeDb KnowledgeVersion
get_version id version = do
  or_raise (← gets (λ s. first (is_version id version) s.versions)) not_found

abbrev pub restored : KnowledgeVersion → KnowledgeDocument → KnowledgeDocument
restored target d = record d {
  title = target.title;
  content = target.content;
  version = d.version + 1;
}

unfoldable pub restore : ℕ → ℕ → Action KnowledgeDb KnowledgeDocument
restore id version = do
  d ← get_document id
  target ← get_version id version
  modify_state (write_document (restored target d))
  modify_state (snapshot (Change.restored_from version) (restored target d))
  pure (restored target d)

unfoldable pub submit_for_review : ℕ → Action KnowledgeDb KnowledgeDocument
submit_for_review id = do
  d ← get_document id
  submitted ← pure (record d { status = KnowledgeStatus.in_review })
  modify_state (write_document submitted)
  pure submitted

-- What a decision makes of the document; `none` is a decision that the code does not know.
abbrev pub decide : ℕ → Option ℕ → Option ReviewDecision → KnowledgeDocument → KnowledgeDocument
decide now reviewer (some ReviewDecision.approved) d = record d {
  status = KnowledgeStatus.approved;
  approver_id = reviewer;
  approved_at = some now;
}
decide now reviewer (some ReviewDecision.changes_requested) d = record d {
  status = KnowledgeStatus.draft;
}
decide now reviewer (some ReviewDecision.rejected) d = record d { status = KnowledgeStatus.draft }
decide now reviewer none d = d

unfoldable pub review :
    Text
    → ℕ
    → ℕ
    → Option ReviewDecision
    → Option ℕ
    → Option Text
    → Action KnowledgeDb KnowledgeReview
review actor now id decision reviewer comment = do
  d ← get_document id
  r ← pure (record {
    document_id = id;
    reviewer_id = reviewer;
    reviewer_name = actor;
    decision = decision;
    comment = comment;
  })
  modify_state (λ s. record s { reviews = s.reviews ++ r ∷ [] })
  modify_state (write_document (decide now reviewer decision d))
  modify_state (log actor id AccessAction.approve)
  pure r
