-- ===== src/Knowledge/Documents.antt =====
-- backend/app/services/knowledge.py: categories, tags and documents. A loaded document is written
-- back when the call flushes it; if the call raises, the request's transaction drops what was
-- written. `id` is the fresh identifier of a row; each tag label comes with one.
use wes.Base.{
  ℤ, ℕ, ◌+◌, Bool, true, false, not, ◌||◌, Option, none, some, is_some, List, [], ◌∷◌, ◌++◌, length,
  if◌then◌else◌, Text, text_eq, is_nonempty, Action, ok, pure, gets, or_raise, raise_if,
  modify_state, ◌>>=◌, ◌>>◌, not_found, conflict, validation, first, find, modify,
}
use wes.Knowledge.State.{
  DocumentType, KnowledgeStatus, AccessAction, KnowledgeDocument, Change, KnowledgeVersion,
  KnowledgeCategory, KnowledgeTag, KnowledgeDb, document_id, category_id,
}
use wes.Knowledge.Slug.{slugify}

abbrev pub get_document : ℕ → Action KnowledgeDb KnowledgeDocument
get_document id = do or_raise (← gets (λ s. find document_id id s.documents)) not_found

abbrev category_by_code : Text → KnowledgeDb → Option KnowledgeCategory
category_by_code code s = first (λ c. text_eq c.code code) s.categories

-- `CategoryService.create`
unfoldable pub create_category :
    ℕ → Text → Text → Option Text → ℤ → Action KnowledgeDb KnowledgeCategory
create_category id code name description position = do
  taken ← gets (category_by_code code)
  raise_if (is_some taken) conflict
  category ←
      pure (record {
        id = id;
        code = code;
        name = name;
        description = description;
        position = position;
      })
  modify_state (λ s. record s { categories = s.categories ++ category ∷ [] })
  pure category

abbrev pub category_missing : Option ℕ → KnowledgeDb → Bool
category_missing none s = false
category_missing (some id) s = not (is_some (find category_id id s.categories))

abbrev pub document_by_code : Text → KnowledgeDb → Option KnowledgeDocument
document_by_code code s = first (λ d. text_eq d.code code) s.documents

abbrev pub version_of : Change → KnowledgeDocument → KnowledgeVersion
version_of change d = record {
  document_id = d.id;
  version = d.version;
  title = d.title;
  content = d.content;
  change_summary = change;
  status = d.status;
  author_id = d.author_id;
}

-- `_snapshot`
abbrev pub snapshot : Change → KnowledgeDocument → KnowledgeDb → KnowledgeDb
snapshot change d s = record s { versions = s.versions ++ version_of change d ∷ [] }

-- `_log`
abbrev pub log : Text → ℕ → AccessAction → KnowledgeDb → KnowledgeDb
log actor id action s = record s {
  access_log = s.access_log ++ record { document_id = id; actor = actor; action = action } ∷ [];
}

abbrev pub write_document : KnowledgeDocument → KnowledgeDb → KnowledgeDb
write_document d s = record s { documents = modify document_id d.id (λ _. d) s.documents }

abbrev pub set_or : {A : Type 0} → Option A → A → A
set_or none old = old
set_or (some new) old = new

abbrev pub set_if : {A : Type 0} → Option A → Option A → Option A
set_if none old = old
set_if (some new) old = some new

abbrev pub content_differs : Option Text → Text → Bool
content_differs none old = false
content_differs (some new) old = not (text_eq new old)

abbrev pub describe : Option Text → Change
describe none = Change.updated
describe (some t) = if is_nonempty t then Change.described t else Change.updated

-- `view`
unfoldable pub view : Text → ℕ → Action KnowledgeDb KnowledgeDocument
view actor id = do
  d ← get_document id
  seen ← pure (record d { view_count = d.view_count + 1 })
  modify_state (write_document seen)
  modify_state (log actor id AccessAction.view)
  pure seen

-- The arguments of `create`; an unknown type is `none`, and `code_text n` the n-th default code.
pub record Draft : Type 0 where
  pub title : Text
  pub doc_type : Option DocumentType
  pub content : Text
  pub summary : Option Text
  pub category_id : Option ℕ
  pub keywords : Option Text
  pub author_id : Option ℕ
  pub owner_ai_employee_id : Option ℕ
  pub tags : List (ℕ × Text)
  pub code : Option Text
  pub status : KnowledgeStatus

-- The arguments of `update`.
pub record Edit : Type 0 where
  pub title : Option Text
  pub content : Option Text
  pub summary : Option Text
  pub category_id : Option ℕ
  pub keywords : Option Text
  pub tags : Option (List (ℕ × Text))
  pub change_summary : Option Text

module _ (lower : Text → Text) where
  abbrev tag_by_slug : Text → List KnowledgeTag → Option KnowledgeTag
  tag_by_slug slug = first (λ t. text_eq t.slug slug)

  -- `TagService.get_or_create`
  unfoldable pub get_or_create : ℕ → Text → List KnowledgeTag → KnowledgeTag × List KnowledgeTag
  get_or_create id label tags = elim (tag_by_slug (slugify lower label) tags) [
    | some tag ↦ (tag, tags)
    | none ↦
        let tag : KnowledgeTag = record { id = id; slug = slugify lower label; label = label } in
        (tag, tags ++ tag ∷ [])
  ]

  -- The identifiers of the tags with these labels, in order.
  unfoldable pub get_tags : List (ℕ × Text) → List KnowledgeTag → List ℕ × List KnowledgeTag
  get_tags [] tags = ([], tags)
  get_tags ((id, label) ∷ labels) tags =
      let (tag, tags1) = get_or_create id label tags in
      let (ids, tags2) = get_tags labels tags1 in (tag.id ∷ ids, tags2)

  abbrev pub tag_document : List (ℕ × Text) → Action KnowledgeDb (List ℕ)
  tag_document labels s =
      let (ids, tags) = get_tags labels s.tags in (ok ids, record s { tags = tags })

  -- The tags of an edited document, and the table of tags with those that were added.
  unfoldable pub retag :
      Option (List (ℕ × Text)) → List ℕ → List KnowledgeTag → List ℕ × List KnowledgeTag
  retag none old table = (old, table)
  retag (some labels) old table = get_tags labels table

  abbrev pub code_of : (ℕ → Text) → Option Text → KnowledgeDb → Text
  code_of code_text none s = code_text (length s.documents + 1)
  code_of code_text (some c) s = if is_nonempty c then c else code_text (length s.documents + 1)

  abbrev pub new_document : ℕ → Text → DocumentType → List ℕ → Draft → KnowledgeDocument
  new_document id code doc_type tags d = record {
    id = id;
    code = code;
    slug = slugify lower d.title;
    title = d.title;
    doc_type = doc_type;
    category_id = d.category_id;
    summary = d.summary;
    content = d.content;
    keywords = d.keywords;
    author_id = d.author_id;
    owner_ai_employee_id = d.owner_ai_employee_id;
    status = d.status;
    version = 1;
    tags = tags;
    view_count = 0;
    approver_id = none;
    approved_at = none;
  }

  unfoldable pub create : (ℕ → Text) → Text → ℕ → Draft → Action KnowledgeDb KnowledgeDocument
  create code_text actor id draft = do
    doc_type ← (do or_raise draft.doc_type validation)
    code ← gets (code_of code_text draft.code)
    taken ← gets (document_by_code code)
    raise_if (is_some taken) conflict
    missing ← gets (category_missing draft.category_id)
    raise_if missing not_found
    tags ← tag_document draft.tags
    d ← pure (new_document id code doc_type tags draft)
    modify_state (λ s. record s { documents = s.documents ++ d ∷ [] })
    modify_state (snapshot Change.initial d)
    modify_state (λ s. record s { placeholders = s.placeholders ++ id ∷ [] })
    modify_state (log actor id AccessAction.create)
    pure d

  abbrev slug_of : Option Text → Text → Text
  slug_of none old = old
  slug_of (some title) old = slugify lower title

  -- Whether the edit makes a new version.
  abbrev pub revises : Edit → KnowledgeDocument → Bool
  revises e d = content_differs e.content d.content || is_some e.title

  abbrev pub edited : Edit → List ℕ → KnowledgeDocument → KnowledgeDocument
  edited e tags d = record d {
    title = set_or e.title d.title;
    slug = slug_of e.title d.slug;
    content = set_or e.content d.content;
    summary = set_if e.summary d.summary;
    category_id = set_if e.category_id d.category_id;
    keywords = set_if e.keywords d.keywords;
    tags = tags;
    version = if revises e d then d.version + 1 else d.version;
  }

  abbrev pub snapshot_if : Bool → Change → KnowledgeDocument → KnowledgeDb → KnowledgeDb
  snapshot_if true change d s = snapshot change d s
  snapshot_if false change d s = s

  unfoldable pub update : Text → ℕ → Edit → Action KnowledgeDb KnowledgeDocument
  update actor id e = do
    d ← get_document id
    missing ← gets (category_missing e.category_id)
    raise_if missing not_found
    table ← gets (λ s. s.tags)
    tags ← pure (retag e.tags d.tags table).0
    modify_state (λ s. record s { tags = (retag e.tags d.tags table).1 })
    modify_state (write_document (edited e tags d))
    modify_state (snapshot_if (revises e d) (describe e.change_summary) (edited e tags d))
    modify_state (log actor id AccessAction.update)
    pure (edited e tags d)
