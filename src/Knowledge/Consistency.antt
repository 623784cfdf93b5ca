-- ===== src/Knowledge/Consistency.antt =====
-- The version history through every sequence of operations (backend/app/services/knowledge.py,
-- backend/app/services/knowledge_versions.py).
use wes.Base.{
  ℕ, ◌≡◌, refl, subst, sym, false, some, List, [], ◌∷◌, ◌⊎◌, inl, inr, ◌==◌, Bool-cases, find,
  modify, modify-All, key_of_find, All, UniqueKeys, Differs, arith,
}
use wes.Knowledge.State.{KnowledgeDocument, KnowledgeVersion, KnowledgeDb, document_id}
use wes.Knowledge.Documents.{version_of}
use wes.Knowledge.Writes.{IsWrite}
use wes.Knowledge.History.{IsTracked, IsConsistent, IsTracked-other, IsTracked-next, IsTracked-same}

module _ (vs ws : List KnowledgeVersion) where
  All-others :
      (k : ℕ) (t : List KnowledgeDocument)
      → ((r : KnowledgeDocument) → (r.id == k) ≡ false → IsTracked vs r → IsTracked ws r)
      → All (Differs document_id k) t
      → All (IsTracked vs) t
      → All (IsTracked ws) t
  All-others k [] f d a = tt
  All-others k (x ∷ t) f d a = (f x d.0 a.0, All-others k t f d.1 a.1)

  modify-IsTracked :
      (k : ℕ) (new : KnowledgeDocument) (t : List KnowledgeDocument)
      → ((r : KnowledgeDocument) → (r.id == k) ≡ false → IsTracked vs r → IsTracked ws r)
      → ((r : KnowledgeDocument)
          → find document_id k t ≡ some r
          → IsTracked vs r
          → IsTracked ws new)
      → UniqueKeys document_id t
      → All (IsTracked vs) t
      → All (IsTracked ws) (modify document_id k (λ _. new) t)
  modify-IsTracked k new [] f g u a = tt
  modify-IsTracked k new (x ∷ t) f g u a = elim (Bool-cases (x.id == k)) [
    | inl e ↦ rw e (g x (rw e refl) a.0, All-others x.id t (λ r d. f r (ground arith)) u.0 a.1)
    | inr e ↦ rw e (f x e a.0, modify-IsTracked k new t f (λ r q. g r (rw e q)) u.1 a.1)
  ]

module _ (k : ℕ) (new : KnowledgeDocument) (same : new.id ≡ k) where
  const-Differs :
      (j : ℕ) (t : List KnowledgeDocument)
      → All (Differs document_id j) t
      → All (Differs document_id j) (modify document_id k (λ _. new) t)
  const-Differs j t a =
      modify-All document_id (Differs document_id j) k (λ _. new) t
        (λ r e d. ground (arith, key_of_find document_id k r t e)) a

  const-UniqueKeys :
      (t : List KnowledgeDocument)
      → UniqueKeys document_id t
      → UniqueKeys document_id (modify document_id k (λ _. new) t)
  const-UniqueKeys [] u = tt
  const-UniqueKeys (x ∷ t) u = elim (Bool-cases (x.id == k)) [
    | inl e ↦ let q : new.id ≡ x.id = ground arith in rw (e, UniqueKeys, q) u
    | inr e ↦ rw (e, UniqueKeys) (const-Differs x.id t u.0, const-UniqueKeys t u.1)
  ]

pub IsWrite-IsConsistent : (s t : KnowledgeDb) → IsWrite s t → IsConsistent s → IsConsistent t
IsWrite-IsConsistent s t w c = record {
  keys =
      subst (UniqueKeys document_id) (sym w.written)
        (const-UniqueKeys w.old.id w.new w.same s.documents c.keys);
  tracked = subst (All (IsTracked t.versions)) (sym w.written) (
      modify-IsTracked s.versions t.versions w.old.id w.new s.documents others self c.keys
        c.tracked);
}
  where
    is_old : (r : KnowledgeDocument) → find document_id w.old.id s.documents ≡ some r → w.old ≡ r
    is_old r q = cc (w.found, q)

    others :
        (r : KnowledgeDocument)
        → (r.id == w.old.id) ≡ false
        → IsTracked s.versions r
        → IsTracked t.versions r
    others r d h = elim w.history [
      | inl kept ↦ subst (λ vs. IsTracked vs r) (sym kept.0) h
      | inr (ch, added, next) ↦
          subst (λ vs. IsTracked vs r) (sym added)
            (IsTracked-other s.versions (version_of ch w.new) r (ground (arith, w.same)) h)
    ]

    self :
        (r : KnowledgeDocument)
        → find document_id w.old.id s.documents ≡ some r
        → IsTracked s.versions r
        → IsTracked t.versions w.new
    self r q h =
        let g : IsTracked s.versions w.old = subst (IsTracked s.versions) (sym (is_old r q)) h in
        elim w.history [
          | inl (vs, n, ti, co) ↦
              subst (λ vs. IsTracked vs w.new) (sym vs)
                (IsTracked-same s.versions w.old w.new w.same n ti co g)
          | inr (ch, added, next) ↦
              subst (λ vs. IsTracked vs w.new) (sym added)
                (IsTracked-next s.versions ch w.old w.new w.same next g)
        ]

pub outcome-IsConsistent :
    (s t : KnowledgeDb) → (t ≡ s) ⊎ IsWrite s t → IsConsistent s → IsConsistent t
outcome-IsConsistent s t (inl e) c = subst IsConsistent (sym e) c
outcome-IsConsistent s t (inr w) c = IsWrite-IsConsistent s t w c
