-- ===== src/Work/State.antt =====
-- backend/app/models/work.py and backend/app/domain/work_enums.py: the columns that the service
-- reads or writes one by one. Hours are the bits of a float, dates and other texts that only serve
-- display are left out.
use wes.Base.{ℕ, Bool, Option, List, Text}

pub data Priority : Type 0 where
  critical high medium low : Priority

pub data WorkStatus : Type 0 where
  backlog planned assigned in_progress blocked review testing done archived : WorkStatus

pub data DependencyType : Type 0 where
  blocks related duplicate : DependencyType

pub data AssignmentRole : Type 0 where
  assignee reviewer : AssignmentRole

-- An AI employee is never removed, only marked as deleted.
pub record Worker : Type 0 where
  pub id : ℕ
  pub name : Text
  pub is_deleted : Bool

pub record Project : Type 0 where
  pub id : ℕ
  pub code : Text
  pub name : Text
  pub owner_ai_employee_id : Option ℕ
  pub version : ℕ

pub record Milestone : Type 0 where
  pub id : ℕ
  pub project_id : ℕ
  pub name : Text

pub record ProjectSprint : Type 0 where
  pub id : ℕ
  pub project_id : ℕ
  pub sprint_number : ℕ

pub record WorkItem : Type 0 where
  pub id : ℕ
  pub task_code : Text
  pub title : Text
  pub description : Option Text
  pub acceptance_criteria : Option Text
  pub priority : Priority
  pub status : WorkStatus
  pub estimated_hours : Option ℕ
  pub actual_hours : Option ℕ
  pub project_id : ℕ
  pub sprint_id : Option ℕ
  pub milestone_id : Option ℕ
  pub assigned_ai_employee_id : Option ℕ
  pub reviewer_ai_employee_id : Option ℕ

pub record Assignment : Type 0 where
  pub work_item_id : ℕ
  pub ai_employee_id : ℕ
  pub role : AssignmentRole
  pub assigned_by : Text

pub record WorkDependency : Type 0 where
  pub work_item_id : ℕ
  pub depends_on_id : ℕ
  pub kind : DependencyType

pub record Comment : Type 0 where
  pub work_item_id : ℕ
  pub author : Text
  pub body : Text

-- What a row of the activity log says, with the values that its detail shows.
pub data Activity : Type 0 where
  project_created : Text → Activity
  project_updated : Activity
  milestone_created : Text → Activity
  sprint_created : ℕ → Activity
  task_created : Text → Activity
  task_updated : Activity
  task_status_changed : WorkStatus → WorkStatus → Activity
  task_assigned : AssignmentRole → Text → Activity
  task_dependency_added : DependencyType → Activity
  task_commented : Activity

pub record ActivityLog : Type 0 where
  pub project_id : Option ℕ
  pub work_item_id : Option ℕ
  pub actor : Text
  pub action : Activity

pub record WorkDb : Type 0 where
  pub workers : List Worker
  pub projects : List Project
  pub milestones : List Milestone
  pub sprints : List ProjectSprint
  pub tasks : List WorkItem
  pub assignments : List Assignment
  pub dependencies : List WorkDependency
  pub comments : List Comment
  pub activity : List ActivityLog

abbrev pub worker_key : Worker → ℕ
worker_key r = r.id

abbrev pub project_key : Project → ℕ
project_key r = r.id

abbrev pub milestone_key : Milestone → ℕ
milestone_key r = r.id

abbrev pub sprint_key : ProjectSprint → ℕ
sprint_key r = r.id

abbrev pub task_key : WorkItem → ℕ
task_key r = r.id
