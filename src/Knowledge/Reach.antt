-- ===== src/Knowledge/Reach.antt =====
-- Every state that the knowledge services reach (backend/app/services/knowledge.py,
-- backend/app/services/knowledge_versions.py).
use wes.Base.{
  ℕ, ◌≡◌, refl, ap, subst, sym, ◌∙◌, Option, none, List, [], ◌∷◌, ◌++◌, map, ◌⊎◌, inl, inr, ◌==◌,
  Text, Bool-cases, Option-cases, find, All, All-append, UniqueKeys, Differs, ==_refl,
  keep-accepted, arith, err, Error, validation, conflict, not_found,
}
use wes.Knowledge.State.{
  KnowledgeDocument, KnowledgeVersion, KnowledgeDb, Change, ReviewDecision, document_id,
}
use wes.Knowledge.Documents.{
  Draft, Edit, create, update, view, version_of, new_document, code_of, document_by_code,
  category_missing, get_tags,
}
use wes.Knowledge.Versions.{restore, submit_for_review, review}
use wes.Knowledge.Writes.{view-IsWrite, review-IsWrite, submit_for_review-IsWrite, restore-IsWrite}
use wes.Knowledge.Edits.{update-IsWrite}
use wes.Knowledge.History.{
  IsTracked, IsConsistent, versions_of, is_of, number_of, count_up, IsTracked-other,
}
use wes.Knowledge.Consistency.{outcome-IsConsistent}

-- The identifier is new to the tables.
abbrev pub IsFresh : ℕ → KnowledgeDb → Type 0
IsFresh id s = (find document_id id s.documents ≡ none) × (versions_of id s.versions ≡ [])

none-Differs :
    (k : ℕ) (t : List KnowledgeDocument)
    → find document_id k t ≡ none
    → All (Differs document_id k) t
none-Differs k [] h = tt
none-Differs k (x ∷ t) h = elim (Bool-cases (x.id == k)) [
  | inl e ↦ cc (rw e at h)
  | inr e ↦ (e, none-Differs k t (rw e at h))
]

UniqueKeys-add :
    (d : KnowledgeDocument) (t : List KnowledgeDocument)
    → All (Differs document_id d.id) t
    → UniqueKeys document_id t
    → UniqueKeys document_id (t ++ d ∷ [])
UniqueKeys-add d [] a u = (tt, tt)
UniqueKeys-add d (x ∷ t) a u = (
  All-append (Differs document_id x.id) t (d ∷ []) u.0 (ground arith, tt),
  UniqueKeys-add d t a.1 u.1,
)

IsTracked-add :
    (vs : List KnowledgeVersion) (v : KnowledgeVersion) (t : List KnowledgeDocument)
    → All (Differs document_id v.document_id) t
    → All (IsTracked vs) t
    → All (IsTracked (vs ++ v ∷ [])) t
IsTracked-add vs v [] a h = tt
IsTracked-add vs v (x ∷ t) a h =
    (IsTracked-other vs v x (ground arith) h.0, IsTracked-add vs v t a.1 h.1)

-- A first version, of a document with no versions before.
first-IsTracked :
    (vs : List KnowledgeVersion) (c : Change) (d : KnowledgeDocument)
    → versions_of d.id vs ≡ []
    → d.version ≡ 1
    → IsTracked (vs ++ version_of c d ∷ []) d
first-IsTracked vs c d none_yet one =
    let v = version_of c d in
    let q : versions_of d.id (vs ++ v ∷ []) ≡ v ∷ [] =
      keep-accepted (is_of d.id) vs v (==_refl d.id) ∙ ap (λ l. l ++ v ∷ []) none_yet in
    record {
      numbered = ap (map number_of) q ∙ (ap (λ n. n ∷ []) one ∙ ap count_up (sym one));
      latest = rw q refl;
    }

module _ (lower : Text → Text) (code_text : ℕ → Text) (actor : Text) (id : ℕ) (draft : Draft)
    (s : KnowledgeDb) where
  abbrev pub tagged : List ℕ × KnowledgeDb
  tagged = let (ids, table) = get_tags lower draft.tags s.tags in (ids, record s { tags = table })

  create_cases :
      ((e : Error) × (create lower code_text actor id draft s ≡ (err e, s)))
      ⊎ ((d : KnowledgeDocument) × (d.id ≡ id)
          × (d.version ≡ 1)
          × ((create lower code_text actor id draft s).1.documents ≡ s.documents ++ d ∷ [])
          × ((create lower code_text actor id draft s).1.versions
              ≡ s.versions ++ version_of Change.initial d ∷ []))
  unfolding create
  create_cases = elim (Option-cases draft.doc_type) [
    | inl e ↦ inl (validation, ground arith)
    | inr (ty, e) ↦
        elim (Option-cases (document_by_code (code_of lower code_text draft.code s) s)) [
          | inr (o, f) ↦ inl (conflict, ground arith)
          | inl f ↦ elim (Bool-cases (category_missing draft.category_id s)) [
            | inl m ↦ inl (not_found, ground arith)
            | inr m ↦ inr (
              new_document lower id (code_of lower code_text draft.code s) ty tagged.0 draft,
              refl,
              refl,
              ground arith,
              ground arith,
            )
          ]
        ]
  ]

  create-IsConsistent :
      IsFresh id s → IsConsistent s → IsConsistent (create lower code_text actor id draft s).1
  create-IsConsistent (new_id, no_versions) c = elim create_cases [
    | inl (e, q) ↦ rw q c
    | inr (d, same, one, docs, vs) ↦
        let away : All (Differs document_id d.id) s.documents =
          rw same (none-Differs id s.documents new_id) in
        record {
          keys = rw docs (UniqueKeys-add d s.documents away c.keys);
          tracked =
              rw (docs, vs)
                (All-append (IsTracked (s.versions ++ version_of Change.initial d ∷ [])) s.documents
                  (d ∷ [])
                  (IsTracked-add s.versions (version_of Change.initial d) s.documents away
                    c.tracked)
                  (first-IsTracked s.versions Change.initial d (rw same no_versions) one, tt));
        }
  ]

-- The states that the operations reach from empty documents.
pub data Reach (lower : Text → Text) (code_text : ℕ → Text) : KnowledgeDb → Type 0 where
  by_start : {s : KnowledgeDb} → s.documents ≡ [] → Reach lower code_text s
  by_create :
      {s t : KnowledgeDb} (actor : Text) (id : ℕ) (draft : Draft)
      → Reach lower code_text s
      → IsFresh id s
      → t ≡ (create lower code_text actor id draft s).1
      → Reach lower code_text t
  by_update :
      {s t : KnowledgeDb} (actor : Text) (id : ℕ) (e : Edit)
      → Reach lower code_text s
      → t ≡ (update lower actor id e s).1
      → Reach lower code_text t
  by_view :
      {s t : KnowledgeDb} (actor : Text) (id : ℕ)
      → Reach lower code_text s
      → t ≡ (view actor id s).1
      → Reach lower code_text t
  by_restore :
      {s t : KnowledgeDb} (id version : ℕ)
      → Reach lower code_text s
      → t ≡ (restore id version s).1
      → Reach lower code_text t
  by_submit :
      {s t : KnowledgeDb} (id : ℕ)
      → Reach lower code_text s
      → t ≡ (submit_for_review id s).1
      → Reach lower code_text t
  by_review :
      {s t : KnowledgeDb} (actor : Text) (now id : ℕ) (decision : Option ReviewDecision)
      (reviewer : Option ℕ) (comment : Option Text)
      → Reach lower code_text s
      → t ≡ (review actor now id decision reviewer comment s).1
      → Reach lower code_text t

module _ {lower : Text → Text} {code_text : ℕ → Text} where
  -- In every state that creating, editing, viewing, restoring, submitting and reviewing documents
  -- reach, where each creation has a fresh identifier, keys are unique, and the snapshots of every
  -- document are numbered from 1 to its version, in order, the last one with its title and content.
  pub Reach-IsConsistent : {s : KnowledgeDb} → Reach lower code_text s → IsConsistent s
  Reach-IsConsistent (by_start e) = record { keys = rw e tt; tracked = rw e tt }
  Reach-IsConsistent (by_create actor id draft r fresh e) =
      subst IsConsistent (sym e)
        (create-IsConsistent lower code_text actor id draft _ fresh (Reach-IsConsistent r))
  Reach-IsConsistent (by_update {s} actor id e r q) =
      subst IsConsistent (sym q)
        (outcome-IsConsistent s _ (update-IsWrite lower actor id e s) (Reach-IsConsistent r))
  Reach-IsConsistent (by_view {s} actor id r q) =
      subst IsConsistent (sym q)
        (outcome-IsConsistent s _ (view-IsWrite actor id s) (Reach-IsConsistent r))
  Reach-IsConsistent (by_restore {s} id version r q) =
      subst IsConsistent (sym q)
        (outcome-IsConsistent s _ (restore-IsWrite id s version) (Reach-IsConsistent r))
  Reach-IsConsistent (by_submit {s} id r q) =
      subst IsConsistent (sym q)
        (outcome-IsConsistent s _ (submit_for_review-IsWrite id s) (Reach-IsConsistent r))
  Reach-IsConsistent (by_review {s} actor now id decision reviewer comment r q) =
      subst IsConsistent (sym q) (
        outcome-IsConsistent s _ (review-IsWrite actor id s now decision reviewer comment)
          (Reach-IsConsistent r))
