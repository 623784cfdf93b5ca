-- ===== src/Knowledge/Writes.antt =====
-- What every operation on a loaded document does to the tables
-- (backend/app/services/knowledge.py, backend/app/services/knowledge_versions.py).
use wes.Base.{
  ℕ, ◌+◌, ◌≡◌, refl, ap, Option, none, some, [], ◌∷◌, ◌++◌, ◌⊎◌, inl, inr, Text, Option-cases, find,
  key_of_find, first, modify, subst, sym, arith, ok, err, not_found,
}
use wes.Knowledge.State.{
  KnowledgeReview, KnowledgeStatus, AccessAction, KnowledgeDocument, KnowledgeVersion, KnowledgeDb,
  Change, ReviewDecision, document_id,
}
use wes.Knowledge.Documents.{log, snapshot, write_document, view, version_of}
use wes.Knowledge.Versions.{restored, restore, submit_for_review, review, decide, is_version}

-- The new document has the old one's version, title and content, and no version was added; or its
-- version is the next one, and a snapshot of it was added.
abbrev pub Keeps : KnowledgeDb → KnowledgeDb → KnowledgeDocument → KnowledgeDocument → Type 0
Keeps s t d d' =
    (t.versions ≡ s.versions)
    × (d'.version ≡ d.version)
    × (d'.title ≡ d.title)
    × (d'.content ≡ d.content)

abbrev pub Revises : KnowledgeDb → KnowledgeDb → KnowledgeDocument → KnowledgeDocument → Type 0
Revises s t d d' =
    (c : Change) × (t.versions ≡ s.versions ++ version_of c d' ∷ []) × (d'.version ≡ d.version + 1)

-- One document was written.
pub record IsWrite (s t : KnowledgeDb) : Type 0 where
  pub old : KnowledgeDocument
  pub found : find document_id old.id s.documents ≡ some old
  pub new : KnowledgeDocument
  pub same : new.id ≡ old.id
  pub written : t.documents ≡ modify document_id old.id (λ _. new) s.documents
  pub history : Keeps s t old new ⊎ Revises s t old new

found_at :
    (id : ℕ) (s : KnowledgeDb) (d : KnowledgeDocument)
    → find document_id id s.documents ≡ some d
    → find document_id d.id s.documents ≡ some d
found_at id s d h =
    subst (λ k. find document_id k s.documents ≡ some d)
      (sym (key_of_find document_id id d s.documents h)) h

-- A write of `new` over `old`, with no new version.
pub keeps :
    (id : ℕ) (s t : KnowledgeDb) (old new : KnowledgeDocument)
    → find document_id id s.documents ≡ some old
    → new.id ≡ old.id
    → t.documents ≡ modify document_id old.id (λ _. new) s.documents
    → Keeps s t old new
    → IsWrite s t
keeps id s t old new found same written h = record {
  old = old;
  found = found_at id s old found;
  new = new;
  same = same;
  written = written;
  history = inl h;
}

-- A write of `new` over `old`, with a snapshot of it.
pub revises_by :
    (id : ℕ) (s t : KnowledgeDb) (old new : KnowledgeDocument) (c : Change)
    → find document_id id s.documents ≡ some old
    → new.id ≡ old.id
    → t.documents ≡ modify document_id old.id (λ _. new) s.documents
    → t.versions ≡ s.versions ++ version_of c new ∷ []
    → new.version ≡ old.version + 1
    → IsWrite s t
revises_by id s t old new c found same written added next = record {
  old = old;
  found = found_at id s old found;
  new = new;
  same = same;
  written = written;
  history = inr (c, added, next);
}

module _ (actor : Text) (id : ℕ) (s : KnowledgeDb) where
  view_lem :
      (d : KnowledgeDocument)
      → find document_id id s.documents ≡ some d
      → view actor id s ≡ (
        ok (record d { view_count = d.view_count + 1 }),
        log actor id AccessAction.view
            (write_document (record d { view_count = d.view_count + 1 }) s),
      )
  unfolding view
  view_lem d e = ground arith

  view-none : find document_id id s.documents ≡ none → view actor id s ≡ (err not_found, s)
  unfolding view
  view-none e = ground arith

  pub view-IsWrite : let t = (view actor id s).1 in (t ≡ s) ⊎ IsWrite s t
  view-IsWrite = elim (Option-cases (find document_id id s.documents)) [
    | inl e ↦ inl (rw (view-none e) refl)
    | inr (d, e) ↦ inr (rw (view_lem d e) (keeps id s _ d _ e refl refl (refl, refl, refl, refl)))
  ]

  module _ (now : ℕ) (decision : Option ReviewDecision) (reviewer : Option ℕ)
      (comment : Option Text) where
    review_lem :
        (d : KnowledgeDocument)
        → find document_id id s.documents ≡ some d
        → let r : KnowledgeReview = record {
          document_id = id;
          reviewer_id = reviewer;
          reviewer_name = actor;
          decision = decision;
          comment = comment;
        } in
          review actor now id decision reviewer comment s ≡ (
            ok r,
            log actor id AccessAction.approve (
                write_document
                  (decide now reviewer decision d)
                  (record s { reviews = s.reviews ++ r ∷ [] })),
          )
    unfolding review
    review_lem d e = ground arith

    review-none :
        find document_id id s.documents ≡ none
        → review actor now id decision reviewer comment s ≡ (err not_found, s)
    unfolding review
    review-none e = ground arith

    decided :
        (dec : Option ReviewDecision) (d : KnowledgeDocument)
        → let d' = decide now reviewer dec d in
          (d'.id ≡ d.id)
          × (d'.version ≡ d.version)
          × (d'.title ≡ d.title)
          × (d'.content ≡ d.content)
    decided none d = (refl, refl, refl, refl)
    decided (some ReviewDecision.approved) d = (refl, refl, refl, refl)
    decided (some ReviewDecision.rejected) d = (refl, refl, refl, refl)
    decided (some ReviewDecision.changes_requested) d = (refl, refl, refl, refl)

    pub review-IsWrite :
        let t = (review actor now id decision reviewer comment s).1 in (t ≡ s) ⊎ IsWrite s t
    review-IsWrite = elim (Option-cases (find document_id id s.documents)) [
      | inl e ↦ inl (rw (review-none e) refl)
      | inr (d, e) ↦
          let (i, v, t, c) = decided decision d in
          inr (
            rw (review_lem d e) (
              keeps id s _ d (decide now reviewer decision d) e i
                (ap (λ k. modify document_id k (λ _. decide now reviewer decision d) s.documents) i)
                (refl, v, t, c)))
    ]

module _ (id : ℕ) (s : KnowledgeDb) where
  submit_lem :
      (d : KnowledgeDocument)
      → find document_id id s.documents ≡ some d
      → submit_for_review id s ≡ (
        ok (record d { status = KnowledgeStatus.in_review }),
        write_document (record d { status = KnowledgeStatus.in_review }) s,
      )
  unfolding submit_for_review
  submit_lem d e = ground arith

  submit-none : find document_id id s.documents ≡ none → submit_for_review id s ≡ (err not_found, s)
  unfolding submit_for_review
  submit-none e = ground arith

  pub submit_for_review-IsWrite : let t = (submit_for_review id s).1 in (t ≡ s) ⊎ IsWrite s t
  submit_for_review-IsWrite = elim (Option-cases (find document_id id s.documents)) [
    | inl e ↦ inl (rw (submit-none e) refl)
    | inr (d, e) ↦ inr (rw (submit_lem d e) (keeps id s _ d _ e refl refl (refl, refl, refl, refl)))
  ]

  module _ (version : ℕ) where
    restore_lem :
        (d : KnowledgeDocument) (v : KnowledgeVersion)
        → find document_id id s.documents ≡ some d
        → first (is_version id version) s.versions ≡ some v
        → restore id version s ≡ (
          ok (restored v d),
          snapshot (Change.restored_from version) (restored v d) (write_document (restored v d) s),
        )
    unfolding restore
    restore_lem d v e f = ground arith

    restore-none :
        (find document_id id s.documents ≡ none) ⊎ (first (is_version id version) s.versions ≡ none)
        → restore id version s ≡ (err not_found, s)
    unfolding restore
    restore-none (inl e) = ground arith
    restore-none (inr f) = elim (Option-cases (find document_id id s.documents)) [
      | inl e ↦ ground arith
      | inr (d, e) ↦ ground arith
    ]

    pub restore-IsWrite : let t = (restore id version s).1 in (t ≡ s) ⊎ IsWrite s t
    restore-IsWrite = elim (Option-cases (find document_id id s.documents)) [
      | inl e ↦ inl (rw (restore-none (inl e)) refl)
      | inr (d, e) ↦ elim (Option-cases (first (is_version id version) s.versions)) [
        | inl f ↦ inl (rw (restore-none (inr f)) refl)
        | inr (v, f) ↦ inr (
            rw (restore_lem d v e f) (
              revises_by id s _ d (restored v d) (Change.restored_from version) e refl refl refl
                refl))
      ]
    ]
