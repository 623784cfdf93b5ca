-- ===== src/Knowledge/State.antt =====
-- backend/app/domain/knowledge_enums.py and backend/app/models/knowledge.py: the tables of the
-- knowledge services. Columns that no operation writes or reads are left out.
use wes.Base.{ℤ, ℕ, Option, List, Text}

pub data DocumentType : Type 0 where
  architecture adr sop specification api design meeting_notes research reference : DocumentType
  coding_standard security_standard deployment_guide troubleshooting_guide : DocumentType
  project_documentation lessons_learned policy template : DocumentType

pub data KnowledgeStatus : Type 0 where
  draft in_review approved archived deprecated : KnowledgeStatus

pub data ReviewDecision : Type 0 where
  approved rejected changes_requested : ReviewDecision

pub data AccessAction : Type 0 where
  view retrieve create update approve : AccessAction

pub record KnowledgeDocument : Type 0 where
  pub id : ℕ
  pub code : Text
  pub slug : Text
  pub title : Text
  pub doc_type : DocumentType
  pub category_id : Option ℕ
  pub summary : Option Text
  pub content : Text
  pub keywords : Option Text
  pub author_id : Option ℕ
  pub owner_ai_employee_id : Option ℕ
  pub status : KnowledgeStatus
  pub version : ℕ
  pub tags : List ℕ
  pub view_count : ℕ
  pub approver_id : Option ℕ
  pub approved_at : Option ℕ

-- The texts of a version's `change_summary`.
pub data Change : Type 0 where
  initial updated : Change
  restored_from : ℕ → Change
  described : Text → Change

pub record KnowledgeVersion : Type 0 where
  pub document_id : ℕ
  pub version : ℕ
  pub title : Text
  pub content : Text
  pub change_summary : Change
  pub status : KnowledgeStatus
  pub author_id : Option ℕ

pub record KnowledgeCategory : Type 0 where
  pub id : ℕ
  pub code : Text
  pub name : Text
  pub description : Option Text
  pub position : ℤ

pub record KnowledgeTag : Type 0 where
  pub id : ℕ
  pub slug : Text
  pub label : Text

pub record KnowledgeReview : Type 0 where
  pub document_id : ℕ
  pub reviewer_id : Option ℕ
  pub reviewer_name : Text
  pub decision : Option ReviewDecision
  pub comment : Option Text

pub record KnowledgeAccessLog : Type 0 where
  pub document_id : ℕ
  pub actor : Text
  pub action : AccessAction

pub record KnowledgeDb : Type 0 where
  pub documents : List KnowledgeDocument
  pub versions : List KnowledgeVersion
  pub categories : List KnowledgeCategory
  pub tags : List KnowledgeTag
  pub reviews : List KnowledgeReview
  pub access_log : List KnowledgeAccessLog
  pub placeholders : List ℕ

abbrev pub document_id : KnowledgeDocument → ℕ
document_id d = d.id

abbrev pub category_id : KnowledgeCategory → ℕ
category_id c = c.id
