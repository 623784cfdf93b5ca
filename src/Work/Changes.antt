-- ===== src/Work/Changes.antt =====
-- backend/app/services/work.py: the writes to a task that exists, its assignments, dependencies and
-- comments. A field of an update is `none` if the request did not give it; the columns that may be
-- null may be given as `none` themselves. A null for a column that may not be null is left out: the
-- database refuses it.
use wes.Base.{
  ℕ, Bool, Option, none, some, [], ◌∷◌, ◌++◌, ◌==◌, if◌then◌else◌, Text, is_nonempty, Action, gets,
  or_raise, raise_if, modify_state, ◌>>=◌, ◌>>◌, not_found, validation, find, modify,
}
use wes.Work.State.{
  Priority, WorkStatus, backlog, planned, assigned, in_progress, blocked, review, testing, done,
  archived, AssignmentRole, assignee, reviewer, Worker, WorkItem, WorkDependency, WorkDb,
  task_updated, task_status_changed, task_assigned, task_dependency_added, task_commented, task_key,
}
use wes.Work.Tasks.{log_activity, find_worker, refs_missing}

-- `WorkItemUpdate` with the fields that were set.
pub record WorkItemUpdate : Type 0 where
  pub title : Option Text
  pub description : Option (Option Text)
  pub acceptance_criteria : Option (Option Text)
  pub priority : Option Priority
  pub status : Option WorkStatus
  pub estimated_hours : Option (Option ℕ)
  pub actual_hours : Option (Option ℕ)
  pub sprint_id : Option (Option ℕ)
  pub milestone_id : Option (Option ℕ)
  pub assigned_ai_employee_id : Option (Option ℕ)
  pub reviewer_ai_employee_id : Option (Option ℕ)

-- `getattr(payload, field)`: a field that was not set has its default, None.
abbrev pub value_of : {A : Type 0} → Option (Option A) → Option A
value_of none = none
value_of (some v) = v

abbrev pub given_or : {A : Type 0} → A → Option A → A
given_or old none = old
given_or old (some v) = v

abbrev pub with_update : WorkItemUpdate → WorkItem → WorkItem
with_update u t = record t {
  title = given_or t.title u.title;
  description = given_or t.description u.description;
  acceptance_criteria = given_or t.acceptance_criteria u.acceptance_criteria;
  priority = given_or t.priority u.priority;
  status = given_or t.status u.status;
  estimated_hours = given_or t.estimated_hours u.estimated_hours;
  actual_hours = given_or t.actual_hours u.actual_hours;
  sprint_id = given_or t.sprint_id u.sprint_id;
  milestone_id = given_or t.milestone_id u.milestone_id;
  assigned_ai_employee_id = given_or t.assigned_ai_employee_id u.assigned_ai_employee_id;
  reviewer_ai_employee_id = given_or t.reviewer_ai_employee_id u.reviewer_ai_employee_id;
}

abbrev pub status_code : WorkStatus → ℕ
status_code backlog = 0
status_code planned = 1
status_code assigned = 2
status_code in_progress = 3
status_code blocked = 4
status_code review = 5
status_code testing = 6
status_code done = 7
status_code archived = 8

abbrev pub log_update : Text → WorkItem → Option WorkStatus → WorkDb → WorkDb
log_update actor t none = log_activity actor (some t.project_id) (some t.id) task_updated
log_update actor t (some new) =
    if status_code new == status_code t.status
    then log_activity actor (some t.project_id) (some t.id) task_updated
    else log_activity actor (some t.project_id) (some t.id) (task_status_changed t.status new)

abbrev pub write_task : ℕ → (WorkItem → WorkItem) → WorkDb → WorkDb
write_task id f s = record s { tasks = modify task_key id f s.tasks }

abbrev pub write_update : Text → ℕ → WorkItemUpdate → WorkItem → WorkDb → WorkDb
write_update actor id u t s = log_update actor t u.status (write_task id (with_update u) s)

abbrev pub update_missing : WorkItemUpdate → WorkDb → Bool
update_missing u =
    refs_missing (value_of u.sprint_id) (value_of u.milestone_id)
      (value_of u.assigned_ai_employee_id) (value_of u.reviewer_ai_employee_id)

abbrev pub get_task : ℕ → WorkDb → Option WorkItem
get_task id s = find task_key id s.tasks

module _ (actor : Text) where
  unfoldable pub update_task : ℕ → WorkItemUpdate → Action WorkDb (Unit {0})
  update_task id u = do
    found ← gets (get_task id)
    t ← or_raise found not_found
    missing ← gets (update_missing u)
    raise_if missing validation
    modify_state (write_update actor id u t)

  abbrev pub after_assign : WorkStatus → WorkStatus
  after_assign backlog = assigned
  after_assign planned = assigned
  after_assign status = status

  abbrev pub give : AssignmentRole → ℕ → WorkItem → WorkItem
  give reviewer id t = record t { reviewer_ai_employee_id = some id }
  give assignee id t = record t {
    assigned_ai_employee_id = some id;
    status = after_assign t.status;
  }

  abbrev pub write_assignment : WorkItem → ℕ → AssignmentRole → Worker → WorkDb → WorkDb
  write_assignment t id role w s =
      log_activity actor (some t.project_id) (some t.id) (task_assigned role w.name)
        (record (write_task id (give role w.id) s) {
          assignments =
              s.assignments
              ++ record {
                work_item_id = t.id;
                ai_employee_id = w.id;
                role = role;
                assigned_by = actor;
              }
                ∷ [];
        })

  unfoldable pub assign_task : ℕ → ℕ → AssignmentRole → Action WorkDb (Unit {0})
  assign_task id worker_id role = do
    found ← gets (get_task id)
    t ← or_raise found not_found
    worker ← gets (find_worker worker_id)
    w ← or_raise worker validation
    modify_state (write_assignment t id role w)

  abbrev pub write_dependency : WorkDependency → WorkDb → WorkDb
  write_dependency d s =
      log_activity actor none (some d.work_item_id) (task_dependency_added d.kind)
        (record s { dependencies = s.dependencies ++ d ∷ [] })

  unfoldable pub add_dependency : WorkDependency → Action WorkDb (Unit {0})
  add_dependency d = do
    found ← gets (get_task d.work_item_id)
    or_raise found not_found
    raise_if (d.depends_on_id == d.work_item_id) validation
    target ← gets (get_task d.depends_on_id)
    or_raise target validation
    modify_state (write_dependency d)

  -- `payload.author or self.actor`
  abbrev pub author_of : Option Text → Text
  author_of none = actor
  author_of (some name) = if is_nonempty name then name else actor

  abbrev pub write_comment : ℕ → Option Text → Text → WorkDb → WorkDb
  write_comment id author body s = log_activity actor none (some id) task_commented (record s {
    comments =
        s.comments ++ record { work_item_id = id; author = author_of author; body = body } ∷ [];
  })

  unfoldable pub add_comment : ℕ → Option Text → Text → Action WorkDb (Unit {0})
  add_comment id author body = do
    found ← gets (get_task id)
    or_raise found not_found
    modify_state (write_comment id author body)
