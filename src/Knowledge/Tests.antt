-- ===== src/Knowledge/Tests.antt =====
-- The theorems on the knowledge base at a concrete document.
use wes.Base.{All, is_nonempty, ℕ, ◌≡◌, refl, none, some, [], ◌∷◌, Text, is_ok, true}
use wes.Knowledge.State.{DocumentType, KnowledgeStatus, KnowledgeDb}
use wes.Knowledge.Documents.{Draft, Edit, create, update}
use wes.Knowledge.Slug.{slugify}
use wes.Knowledge.Slugs.{IsSlugChar, slugify-IsSlugChar}
use wes.Knowledge.Versions.{restore}
use wes.Knowledge.History.{IsConsistent}
use wes.Knowledge.Reach.{by_start, by_create, by_update, by_restore, Reach-IsConsistent}

abbrev as_is : Text → Text
as_is t = t

abbrev code_text : ℕ → Text
code_text n = n ∷ []

-- "a b!" gives "a-b".
slug_test : slugify as_is (97 ∷ 32 ∷ 98 ∷ 33 ∷ []) ≡ 97 ∷ 45 ∷ 98 ∷ []
unfolding slugify
slug_test = refl

slugify-IsSlugChar_example :
    (is_nonempty (slugify as_is (97 ∷ 32 ∷ [])) ≡ true)
    × All IsSlugChar (slugify as_is (97 ∷ 32 ∷ []))
slugify-IsSlugChar_example = slugify-IsSlugChar as_is (97 ∷ 32 ∷ [])

abbrev nothing : KnowledgeDb
nothing = record {
  documents = [];
  versions = [];
  categories = [];
  tags = [];
  reviews = [];
  access_log = [];
  placeholders = [];
}

abbrev draft : Draft
draft = record {
  title = 97 ∷ [];
  doc_type = some DocumentType.sop;
  content = [];
  summary = none;
  category_id = none;
  keywords = none;
  author_id = none;
  owner_ai_employee_id = none;
  tags = (1, 98 ∷ []) ∷ [];
  code = none;
  status = KnowledgeStatus.draft;
}

abbrev edit : Edit
edit = record {
  title = none;
  content = some (99 ∷ []);
  summary = none;
  category_id = none;
  keywords = none;
  tags = none;
  change_summary = none;
}

abbrev created : KnowledgeDb
created = (create as_is code_text [] 7 draft nothing).1

abbrev changed : KnowledgeDb
changed = (update as_is [] 7 edit created).1

-- The edit and the restoring both go through.
goes_through : is_ok (restore 7 1 changed).0 ≡ true
unfolding create update restore
goes_through = refl

Reach-IsConsistent_example : IsConsistent (restore 7 1 changed).1
Reach-IsConsistent_example = Reach-IsConsistent {lower = as_is} {code_text = code_text} (
    by_restore 7 1
      (by_update [] 7 edit (by_create [] 7 draft (by_start {s = nothing} refl) (refl, refl) refl)
        refl)
      refl)
