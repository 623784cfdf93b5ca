-- ===== src/Knowledge/History.antt =====
-- The version history of every document (backend/app/services/knowledge.py,
-- backend/app/services/knowledge_versions.py).
use Prim.Native.Nat.{zero, suc}
use wes.Base.{
  ℕ, ◌+◌, ◌≡◌, refl, ap, subst, sym, ◌∙◌, Bool, false, Option, none, some, List, [], ◌∷◌, ◌++◌, map,
  ◌==◌, Text, keep, keep-accepted, keep-refused, ==_refl, All, UniqueKeys, arith,
}
use wes.Knowledge.State.{KnowledgeDocument, KnowledgeVersion, KnowledgeDb, Change, document_id}
use wes.Knowledge.Documents.{version_of}

abbrev pub is_of : ℕ → KnowledgeVersion → Bool
is_of id v = v.document_id == id

abbrev pub versions_of : ℕ → List KnowledgeVersion → List KnowledgeVersion
versions_of id = keep (is_of id)

abbrev pub number_of : KnowledgeVersion → ℕ
number_of v = v.version

-- 1, 2, ..., n
abbrev pub count_up : ℕ → List ℕ
count_up zero = []
count_up (suc n) = count_up n ++ suc n ∷ []

abbrev pub last : {A : Type 0} → List A → Option A
last [] = none
last (x ∷ []) = some x
last (x ∷ y ∷ t) = last (y ∷ t)

abbrev pub texts_of : Option KnowledgeVersion → Option (Text × Text)
texts_of none = none
texts_of (some v) = some (v.title, v.content)

-- The snapshots of the document are numbered from 1 to its version, in order, and the last one has
-- its title and its content.
pub record IsTracked (vs : List KnowledgeVersion) (d : KnowledgeDocument) : Type 0 where
  pub numbered : map number_of (versions_of d.id vs) ≡ count_up d.version
  pub latest : texts_of (last (versions_of d.id vs)) ≡ some (d.title, d.content)

last_snoc : {A : Type 0} (xs : List A) (y : A) → last (xs ++ y ∷ []) ≡ some y
last_snoc [] y = refl
last_snoc (x ∷ []) y = refl
last_snoc (x ∷ z ∷ t) y = last_snoc (z ∷ t) y

map_snoc :
    {A B : Type 0} (f : A → B) (xs : List A) (y : A) → map f (xs ++ y ∷ []) ≡ map f xs ++ f y ∷ []
map_snoc f [] y = refl
map_snoc f (x ∷ xs) y = ap (λ k. f x ∷ k) (map_snoc f xs y)

count_up_next : (n : ℕ) → count_up (n + 1) ≡ count_up n ++ (n + 1) ∷ []
count_up_next n = subst (λ k. count_up k ≡ count_up n ++ k ∷ []) one_more refl
  where
    one_more : suc n ≡ n + 1
    one_more = omega arith

-- A snapshot of another document changes nothing for this one.
pub IsTracked-other :
    (vs : List KnowledgeVersion) (v : KnowledgeVersion) (d : KnowledgeDocument)
    → is_of d.id v ≡ false
    → IsTracked vs d
    → IsTracked (vs ++ v ∷ []) d
IsTracked-other vs v d h t =
    let q : versions_of d.id (vs ++ v ∷ []) ≡ versions_of d.id vs =
      keep-refused (is_of d.id) vs v h in
    record {
      numbered = ap (map number_of) q ∙ t.numbered;
      latest = ap (λ l. texts_of (last l)) q ∙ t.latest;
    }

-- The snapshot of a next version.
pub IsTracked-next :
    (vs : List KnowledgeVersion) (c : Change) (d d' : KnowledgeDocument)
    → d'.id ≡ d.id
    → d'.version ≡ d.version + 1
    → IsTracked vs d
    → IsTracked (vs ++ version_of c d' ∷ []) d'
IsTracked-next vs c d d' i n t =
    let v = version_of c d' in
    let q : versions_of d'.id (vs ++ v ∷ []) ≡ versions_of d.id vs ++ v ∷ [] =
      keep-accepted (is_of d'.id) vs v (==_refl d'.id) ∙ ap (λ k. versions_of k vs ++ v ∷ []) i in
    record {
      numbered =
          ap (map number_of) q
          ∙ (map_snoc number_of (versions_of d.id vs) v
              ∙ (ap (λ l. l ++ d'.version ∷ []) t.numbered
                  ∙ (ap (λ k. count_up d.version ++ k ∷ []) n
                      ∙ (sym (count_up_next d.version) ∙ ap count_up (sym n)))));
      latest = ap (λ l. texts_of (last l)) q ∙ ap texts_of (last_snoc (versions_of d.id vs) v);
    }

-- A document with the same version, title and content.
pub IsTracked-same :
    (vs : List KnowledgeVersion) (d d' : KnowledgeDocument)
    → d'.id ≡ d.id
    → d'.version ≡ d.version
    → d'.title ≡ d.title
    → d'.content ≡ d.content
    → IsTracked vs d
    → IsTracked vs d'
IsTracked-same vs d d' i n t c h = record {
  numbered = ap (λ k. map number_of (versions_of k vs)) i ∙ (h.numbered ∙ ap count_up (sym n));
  latest =
      ap (λ k. texts_of (last (versions_of k vs))) i
      ∙ (h.latest ∙ (ap (λ k. some (k, d.content)) (sym t) ∙ ap (λ k. some (d'.title, k)) (sym c)));
}

-- The tables fit together: keys are unique, and every document is tracked.
pub record IsConsistent (s : KnowledgeDb) : Type 0 where
  pub keys : UniqueKeys document_id s.documents
  pub tracked : All (IsTracked s.versions) s.documents
