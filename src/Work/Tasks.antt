-- ===== src/Work/Tasks.antt =====
-- backend/app/services/work.py: the operations that add projects, milestones, sprints and tasks, and
-- the tests of what a request refers to. The keys of new rows are arguments; the answers, which are
-- the rows read back for display, are left out.
use wes.Base.{
  ℕ, Bool, true, false, not, ◌&&◌, Option, none, some, is_some, [], ◌∷◌, ◌++◌, ◌==◌, if◌then◌else◌,
  Text, text_eq, Action, gets, or_raise, raise_if, modify_state, ◌>>=◌, ◌>>◌, conflict, validation,
  first, find,
}
use wes.Work.State.{
  Worker, Project, Milestone, ProjectSprint, WorkItem, Activity, WorkDb, project_created,
  milestone_created, sprint_created, task_created, project_key, milestone_key, sprint_key,
}

-- `AIEmployeeRepository.get`
abbrev pub active_worker : ℕ → Worker → Bool
active_worker id w = w.id == id && not w.is_deleted

abbrev pub find_worker : ℕ → WorkDb → Option Worker
find_worker id s = first (active_worker id) s.workers

-- `val is not None and repo.get(val) is None`, for the four fields.
abbrev pub is_missing : {A : Type 0} → Option ℕ → (ℕ → Option A) → Bool
is_missing none get = false
is_missing (some id) get = not (is_some (get id))

abbrev pub refs_missing : Option ℕ → Option ℕ → Option ℕ → Option ℕ → WorkDb → Bool
refs_missing sprint milestone worker reviewer' s =
    if is_missing sprint (λ id. find sprint_key id s.sprints)
    then true
    else if is_missing milestone (λ id. find milestone_key id s.milestones)
    then true
    else if is_missing worker (λ id. find_worker id s)
    then true
    else is_missing reviewer' (λ id. find_worker id s)

abbrev pub owner_missing : Option ℕ → WorkDb → Bool
owner_missing owner s = is_missing owner (λ id. find_worker id s)

module _ (actor : Text) where
  -- `_log`
  abbrev pub log_activity : Option ℕ → Option ℕ → Activity → WorkDb → WorkDb
  log_activity project_id work_item_id action s = record s {
    activity =
        s.activity
        ++ record {
          project_id = project_id;
          work_item_id = work_item_id;
          actor = actor;
          action = action;
        }
          ∷ [];
  }

  abbrev pub add_project : Project → WorkDb → WorkDb
  add_project p s =
      log_activity (some p.id) none (project_created p.name)
        (record s { projects = s.projects ++ p ∷ [] })

  unfoldable pub create_project : ℕ → Text → Text → Option ℕ → Action WorkDb (Unit {0})
  create_project id code name owner = do
    taken ← gets (λ s. is_some (first (λ (p : Project). text_eq p.code code) s.projects))
    raise_if taken conflict
    missing ← gets (owner_missing owner)
    raise_if missing validation
    modify_state (
        add_project
          (record { id = id; code = code; name = name; owner_ai_employee_id = owner; version = 1 }))

  abbrev pub add_milestone : Milestone → WorkDb → WorkDb
  add_milestone m s =
      log_activity (some m.project_id) none (milestone_created m.name)
        (record s { milestones = s.milestones ++ m ∷ [] })

  unfoldable pub create_milestone : Milestone → Action WorkDb (Unit {0})
  create_milestone m = do
    p ← gets (λ s. find project_key m.project_id s.projects)
    or_raise p validation
    modify_state (add_milestone m)

  abbrev pub add_sprint : ProjectSprint → WorkDb → WorkDb
  add_sprint r s =
      log_activity (some r.project_id) none (sprint_created r.sprint_number)
        (record s { sprints = s.sprints ++ r ∷ [] })

  unfoldable pub create_sprint : ProjectSprint → Action WorkDb (Unit {0})
  create_sprint r = do
    p ← gets (λ s. find project_key r.project_id s.projects)
    or_raise p validation
    modify_state (add_sprint r)

  abbrev pub add_task : WorkItem → WorkDb → WorkDb
  add_task t s =
      log_activity (some t.project_id) (some t.id) (task_created t.title)
        (record s { tasks = s.tasks ++ t ∷ [] })

  unfoldable pub create_task : WorkItem → Action WorkDb (Unit {0})
  create_task t = do
    taken ← gets (λ s. is_some (first (λ (r : WorkItem). text_eq r.task_code t.task_code) s.tasks))
    raise_if taken conflict
    p ← gets (λ s. find project_key t.project_id s.projects)
    or_raise p validation
    missing ← gets (
        refs_missing t.sprint_id t.milestone_id t.assigned_ai_employee_id t.reviewer_ai_employee_id)
    raise_if missing validation
    modify_state (add_task t)
