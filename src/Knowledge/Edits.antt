-- ===== src/Knowledge/Edits.antt =====
-- What editing a document does to the tables (backend/app/services/knowledge.py).
use wes.Base.{
  ℕ, ◌≡◌, refl, true, false, ◌||◌, Option, none, some, List, ◌⊎◌, inl, inr, Text, text_eq_iff,
  is_some, Bool-cases, Option-cases, find, arith, ok, err, not_found,
}
use wes.Knowledge.State.{KnowledgeDocument, KnowledgeDb, AccessAction, document_id}
use wes.Knowledge.Documents.{
  Edit, update, edited, revises, retag, describe, category_missing, snapshot_if, set_or,
  content_differs, log, write_document,
}
use wes.Knowledge.Writes.{IsWrite, keeps, revises_by}

-- An edit that makes no version leaves title and content.
unrevised :
    (title content : Option Text) (t c : Text)
    → (content_differs content c || is_some title) ≡ false
    → (set_or title t ≡ t) × (set_or content c ≡ c)
unrevised none none t c h = (refl, refl)
unrevised none (some x) t c h = (refl, ground (arith, text_eq_iff x c))
unrevised (some x) none t c h = cc
unrevised (some x) (some y) t c h = ground (arith, text_eq_iff y c)

module _ (lower : Text → Text) (actor : Text) (id : ℕ) (e : Edit) where
  abbrev new_tags : KnowledgeDocument → KnowledgeDb → List ℕ
  new_tags d s = (retag lower e.tags d.tags s.tags).0

  abbrev after : KnowledgeDocument → KnowledgeDb → KnowledgeDb
  after d s =
      let d' = edited lower e (new_tags d s) d in
      log actor id AccessAction.update (
        snapshot_if lower (revises lower e d) (describe e.change_summary) d'
          (write_document d' (record s { tags = (retag lower e.tags d.tags s.tags).1 })))

  pub update_lem :
      (s : KnowledgeDb) (d : KnowledgeDocument)
      → find document_id id s.documents ≡ some d
      → category_missing e.category_id s ≡ false
      → update lower actor id e s ≡ (ok (edited lower e (new_tags d s) d), after d s)
  unfolding update
  update_lem s d found present = ground arith

  update-none :
      (s : KnowledgeDb)
      → find document_id id s.documents ≡ none
      → update lower actor id e s ≡ (err not_found, s)
  unfolding update
  update-none s found = ground arith

  update_missing :
      (s : KnowledgeDb) (d : KnowledgeDocument)
      → find document_id id s.documents ≡ some d
      → category_missing e.category_id s ≡ true
      → update lower actor id e s ≡ (err not_found, s)
  unfolding update
  update_missing s d found missing = ground arith

  pub update-IsWrite :
      (s : KnowledgeDb) → let t = (update lower actor id e s).1 in (t ≡ s) ⊎ IsWrite s t
  update-IsWrite s = elim (Option-cases (find document_id id s.documents)) [
    | inl f ↦ inl (rw (update-none s f) refl)
    | inr (d, f) ↦ elim (Bool-cases (category_missing e.category_id s)) [
      | inl m ↦ inl (rw (update_missing s d f m) refl)
      | inr m ↦ elim (Bool-cases (revises lower e d)) [
        | inl q ↦ inr (
            rw (update_lem s d f m) (
              revises_by id s (after d s) d (edited lower e (new_tags d s) d)
                (describe e.change_summary) f refl (rw q refl) (rw q refl) (rw q refl)))
        | inr q ↦
            let same = unrevised e.title e.content d.title d.content q in
            inr (
              rw (update_lem s d f m) (
                keeps id s (after d s) d (edited lower e (new_tags d s) d) f refl (rw q refl)
                  (rw q refl, rw q refl, same.0, same.1)))
      ]
    ]
  ]
