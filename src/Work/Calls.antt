-- ===== src/Work/Calls.antt =====
-- backend/app/services/work.py: the update of a project, and the calls of the service. Of the columns
-- that an update may set, those that the rows of the model have are name and owner.
use wes.Base.{
  ℕ, suc, Bool, ◌&&◌, Option, none, some, List, [], ◌∷◌, Text, Action, gets, or_raise, raise_if,
  modify_state, ◌>>=◌, ◌>>◌, not_found, raised, find, modify,
}
use wes.Work.State.{
  AssignmentRole, Project, Milestone, ProjectSprint, WorkItem, WorkDependency, WorkDb,
  project_updated, project_key, worker_key,
}
use wes.Work.Tasks.{
  log_activity, is_missing, create_project, create_milestone, create_sprint, create_task,
}
use wes.Work.Changes.{
  WorkItemUpdate, value_of, given_or, update_task, assign_task, add_dependency, add_comment,
}

pub record ProjectUpdate : Type 0 where
  pub name : Option Text
  pub owner_ai_employee_id : Option (Option ℕ)

abbrev pub with_project_update : ProjectUpdate → Project → Project
with_project_update u p = record p {
  name = given_or p.name u.name;
  owner_ai_employee_id = given_or p.owner_ai_employee_id u.owner_ai_employee_id;
  version = suc p.version;
}

-- The foreign key of the owner: an owner that is given is a row, deleted or not.
abbrev pub owner_unknown : ProjectUpdate → WorkDb → Bool
owner_unknown u s =
    is_missing (value_of u.owner_ai_employee_id) (λ id. find worker_key id s.workers)

module _ (actor : Text) (checks_keys : Bool) where
  abbrev pub write_project : ℕ → ProjectUpdate → WorkDb → WorkDb
  write_project id u s =
      log_activity actor (some id) none project_updated
        (record s { projects = modify project_key id (with_project_update u) s.projects })

  -- The service does not test the owner: `flush` raises if the database checks foreign keys.
  unfoldable pub update_project : ℕ → ProjectUpdate → Action WorkDb (Unit {0})
  update_project id u = do
    found ← gets (λ s. find project_key id s.projects)
    or_raise found not_found
    unknown ← gets (owner_unknown u)
    raise_if (checks_keys && unknown) raised
    modify_state (write_project id u)

-- A call of the service, by its method and its arguments.
pub data WorkCall : Type 0 where
  to_create_project : ℕ → Text → Text → Option ℕ → WorkCall
  to_update_project : ℕ → ProjectUpdate → WorkCall
  to_create_milestone : Milestone → WorkCall
  to_create_sprint : ProjectSprint → WorkCall
  to_create_task : WorkItem → WorkCall
  to_update_task : ℕ → WorkItemUpdate → WorkCall
  to_assign_task : ℕ → ℕ → AssignmentRole → WorkCall
  to_add_dependency : WorkDependency → WorkCall
  to_add_comment : ℕ → Option Text → Text → WorkCall

abbrev pub call : Text → Bool → WorkCall → Action WorkDb (Unit {0})
call actor checks_keys (to_create_project id code name owner) =
    create_project actor id code name owner
call actor checks_keys (to_update_project id u) = update_project actor checks_keys id u
call actor checks_keys (to_create_milestone m) = create_milestone actor m
call actor checks_keys (to_create_sprint r) = create_sprint actor r
call actor checks_keys (to_create_task t) = create_task actor t
call actor checks_keys (to_update_task id u) = update_task actor id u
call actor checks_keys (to_assign_task id worker_id role) = assign_task actor id worker_id role
call actor checks_keys (to_add_dependency d) = add_dependency actor d
call actor checks_keys (to_add_comment id author body) = add_comment actor id author body

-- Calls in their order, each on the state that the one before left.
abbrev pub call_all : Text → Bool → List WorkCall → WorkDb → WorkDb
call_all actor checks_keys [] s = s
call_all actor checks_keys (c ∷ cs) s = call_all actor checks_keys cs (call actor checks_keys c s).1
