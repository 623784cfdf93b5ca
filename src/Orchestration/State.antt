-- ===== src/Orchestration/State.antt =====
-- The tables of backend/app/models/orchestration.py that a run reads and writes, beside those of
-- the provider platform.
use wes.Base.{ℕ, Option, List, Text}
use wes.Platform.Float.{Float}
use wes.Platform.State.{PlatformDb, Reason}

pub data RunStatus : Type 0 where
  queued running completed failed cancelled : RunStatus

pub data MessageRole : Type 0 where
  system user assistant tool : MessageRole

pub data ReviewOutcome : Type 0 where
  approved rejected returned escalated : ReviewOutcome

-- `Message` of backend/app/providers/base.py
pub record Message : Type 0 where
  pub role : MessageRole
  pub content : Text

pub record AiRole : Type 0 where
  pub id : ℕ
  pub code : Text
  pub title : Text

pub record AiEmployee : Type 0 where
  pub id : ℕ
  pub name : Text
  pub role_id : ℕ

pub record WorkItem : Type 0 where
  pub id : ℕ
  pub project_id : ℕ
  pub task_code : Text
  pub title : Text
  pub acceptance_criteria : Option Text

pub record Handoff : Type 0 where
  pub work_item_id : ℕ
  pub to_ai_employee_id : ℕ
  pub sequence : ℕ

pub record ConversationThread : Type 0 where
  pub id : ℕ
  pub ai_employee_id : ℕ
  pub work_item_id : Option ℕ
  pub provider_id : ℕ

-- `run.error`: the text of the budget's reason, or of the last provider's error, if it had one.
pub data RunError : Type 0 where
  budget_limit : Option Reason → RunError
  provider_error : Text → RunError

pub record ExecutionRun : Type 0 where
  pub id : ℕ
  pub thread_id : ℕ
  pub ai_employee_id : ℕ
  pub work_item_id : Option ℕ
  pub provider_id : ℕ
  pub model : Option Text
  pub status : RunStatus
  pub input_summary : Text
  pub output : Option Text
  pub error : Option RunError
  pub review_outcome : Option ReviewOutcome
  pub review_notes : Option Text
  pub started_at : ℕ
  pub completed_at : Option ℕ
  pub duration_ms : Option ℕ

pub record ExecutionMessage : Type 0 where
  pub thread_id : ℕ
  pub run_id : ℕ
  pub role : MessageRole
  pub content : Text
  pub sequence : ℕ

pub record ExecutionMetric : Type 0 where
  pub run_id : ℕ
  pub latency_ms : ℕ
  pub prompt_tokens : ℕ
  pub completion_tokens : ℕ
  pub total_tokens : ℕ

pub record TokenUsage : Type 0 where
  pub run_id : ℕ
  pub provider_id : ℕ
  pub ai_employee_id : ℕ
  pub prompt_tokens : ℕ
  pub completion_tokens : ℕ
  pub total_tokens : ℕ

pub record CostTracking : Type 0 where
  pub run_id : ℕ
  pub provider_id : ℕ
  pub tokens : ℕ
  pub estimated_cost : Float
  pub currency : Text

pub data RetryStatus : Type 0 where
  succeeded rate_limited failed : RetryStatus

pub record RetryHistory : Type 0 where
  pub run_id : ℕ
  pub attempt : ℕ
  pub status : RetryStatus
  pub error : Option Text

-- `calls` is no table: the keys of the providers that `execute` was called on, in order.
pub record OrchestrationDb : Type 0 where
  pub employees : List AiEmployee
  pub roles : List AiRole
  pub work_items : List WorkItem
  pub handoffs : List Handoff
  pub threads : List ConversationThread
  pub runs : List ExecutionRun
  pub messages : List ExecutionMessage
  pub metrics : List ExecutionMetric
  pub token_usages : List TokenUsage
  pub costs : List CostTracking
  pub retries : List RetryHistory
  pub platform : PlatformDb
  pub calls : List ℕ

abbrev pub run_key : ExecutionRun → ℕ
run_key r = r.id

abbrev pub employee_key : AiEmployee → ℕ
employee_key e = e.id

abbrev pub work_item_key : WorkItem → ℕ
work_item_key w = w.id

abbrev pub role_row_key : AiRole → ℕ
role_row_key r = r.id
