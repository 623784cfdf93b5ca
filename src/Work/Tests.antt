-- ===== src/Work/Tests.antt =====
-- A run of work management: a project with two tasks, of which one waits for the other.
use wes.Base.{true, none, some, false, [], ◌∷◌, ◌≡◌, refl, List, Text, map}
use wes.Work.State.{Priority, planned, assigned, in_progress, blocks, assignee, WorkItem, WorkDb}
use wes.Work.Tasks.{create_project, create_milestone, create_sprint, create_task}
use wes.Work.Changes.{update_task, assign_task, add_dependency, add_comment, WorkItemUpdate}
use wes.Work.Calls.{
  update_project, WorkCall, call_all, to_create_project, to_update_project, to_create_milestone,
  to_create_sprint, to_create_task, to_update_task, to_assign_task, to_add_dependency,
  to_add_comment,
}
use wes.Work.Links.{IsLinked}
use wes.Work.Refs.{call_all-IsLinked}

abbrev founder_name : Text
founder_name = 102 ∷ []

abbrev empty_work : WorkDb
empty_work = record {
  workers = record { id = 7; name = 97 ∷ []; is_deleted = false } ∷ [];
  projects = [];
  milestones = [];
  sprints = [];
  tasks = [];
  assignments = [];
  dependencies = [];
  comments = [];
  activity = [];
}

abbrev first_task : WorkItem
first_task = record {
  id = 4;
  task_code = 49 ∷ [];
  title = 116 ∷ [];
  description = none;
  acceptance_criteria = none;
  priority = Priority.medium;
  status = planned;
  estimated_hours = none;
  actual_hours = none;
  project_id = 1;
  sprint_id = some 3;
  milestone_id = none;
  assigned_ai_employee_id = none;
  reviewer_ai_employee_id = some 7;
}

abbrev to_milestone_and_back : WorkItemUpdate
to_milestone_and_back = record {
  title = none;
  description = none;
  acceptance_criteria = none;
  priority = none;
  status = some in_progress;
  estimated_hours = none;
  actual_hours = none;
  sprint_id = some none;
  milestone_id = some (some 2);
  assigned_ai_employee_id = none;
  reviewer_ai_employee_id = none;
}

abbrev work_calls : List WorkCall
work_calls =
    to_create_project 1 (80 ∷ []) (80 ∷ []) (some 7)
    ∷ to_update_project 1 (record { name = none; owner_ai_employee_id = some (some 8) })
    ∷ to_create_milestone (record { id = 2; project_id = 1; name = 77 ∷ [] })
    ∷ to_create_sprint (record { id = 3; project_id = 1; sprint_number = 1 })
    ∷ to_create_task first_task
    ∷ to_create_task (record first_task { id = 5; task_code = 50 ∷ [] })
    ∷ to_add_dependency (record { work_item_id = 5; depends_on_id = 4; kind = blocks })
    ∷ to_assign_task 5 7 assignee
    ∷ to_update_task 4 to_milestone_and_back
    ∷ to_add_comment 4 none (111 ∷ [])
    ∷ []

-- The task that was planned is assigned, the other in progress.
work_calls_test :
    map (λ (t : WorkItem). t.status) (call_all founder_name true work_calls empty_work).tasks
    ≡ in_progress ∷ assigned ∷ []
unfolding create_project update_project create_milestone create_sprint create_task update_task
    assign_task add_dependency add_comment
work_calls_test = refl

call_all-IsLinked_example : IsLinked (call_all founder_name true work_calls empty_work)
call_all-IsLinked_example =
    call_all-IsLinked founder_name work_calls empty_work (tt, tt, tt, tt, tt, tt, tt, tt)
