-- ===== src/Work/Refs.antt =====
-- Every sequence of the calls of backend/app/services/work.py keeps the references between rows.
use wes.Base.{
  true, raised, modify-All, modify, find, ℕ, false, none, some, List, [], ◌∷◌, ◌≡◌, refl, arith,
  inl, inr, Bool-cases, Option-cases, Text, ok, err, not_found,
}
use wes.Work.State.{Project, project_key, project_updated, WorkDb, worker_key}
use wes.Work.Changes.{value_of}
use wes.Work.Calls.{
  ProjectUpdate, with_project_update, owner_unknown, write_project, update_project, WorkCall, call,
  call_all, to_create_project, to_update_project, to_create_milestone, to_create_sprint,
  to_create_task, to_update_task, to_assign_task, to_add_dependency, to_add_comment,
}
use wes.Work.Links.{
  log_activity-IsLinked, activities_later, tasks_later, ProjectLinked, IsLinked, Extends,
  Has-modify, milestones_later, sprints_later, assignments_later, dependencies_later,
  comments_later,
}
use wes.Work.Found.{some-Has, missing-Refers, ends_with}
use wes.Work.Kept.{
  create_project-IsLinked, create_milestone-IsLinked, create_sprint-IsLinked, create_task-IsLinked,
}
use wes.Work.Notes.{add_comment-IsLinked, add_dependency-IsLinked}
use wes.Work.Writes.{given_or-Refers, update_task-IsLinked, assign_task-IsLinked}

module _ (actor : Text) (s : WorkDb) (h : IsLinked s) where
  write_project-Extends :
      (id : ℕ) (u : ProjectUpdate)
      → Extends s (record s { projects = modify project_key id (with_project_update u) s.projects })
  write_project-Extends id u = (
    λ i k. k,
    Has-modify project_key (with_project_update u) (λ r. refl) id s.projects,
    λ i k. k,
    λ i k. k,
    λ i k. k,
  )

  write_project-IsLinked :
      (id : ℕ) (u : ProjectUpdate) (p : Project)
      → find project_key id s.projects ≡ some p
      → owner_unknown u s ≡ false
      → IsLinked (write_project actor true id u s)
  write_project-IsLinked id u p e m =
      let t = record s { projects = modify project_key id (with_project_update u) s.projects } in
      let g = write_project-Extends id u in
      let owner = missing-Refers worker_key s.workers (value_of u.owner_ai_employee_id) m in
      log_activity-IsLinked actor (some id) none project_updated t
        (
          modify-All project_key (ProjectLinked s) id (with_project_update u) s.projects
              (λ r q k.
                given_or-Refers worker_key s.workers r.owner_ai_employee_id u.owner_ai_employee_id k
                  owner)
              h.0,
          milestones_later s t g h,
          sprints_later s t g h,
          tasks_later s t g h,
          assignments_later s t g h,
          dependencies_later s t g h,
          comments_later s t g h,
          activities_later s t g h,
        )
        (g.1 id (some-Has project_key s.projects id p e)) tt

  update_project-IsLinked :
      (id : ℕ) (u : ProjectUpdate) → IsLinked (update_project actor true id u s).1
  unfolding update_project
  update_project-IsLinked id u =
      let ended = update_project actor true id u s in
      elim (Option-cases (find project_key id s.projects)) [
        | inl e ↦ ends_with ended (err not_found, s) (ground arith) h
        | inr (p, e) ↦ elim (Bool-cases (owner_unknown u s)) [
          | inl m ↦ ends_with ended (err raised, s) (ground arith) h
          | inr m ↦
              ends_with ended (ok tt, write_project actor true id u s) (ground arith)
                (write_project-IsLinked id u p e m)
        ]
      ]

  pub call-IsLinked : (c : WorkCall) → IsLinked (call actor true c s).1
  call-IsLinked (to_create_project id code name owner) =
      create_project-IsLinked actor s h id code name owner
  call-IsLinked (to_update_project id u) = update_project-IsLinked id u
  call-IsLinked (to_create_milestone m) = create_milestone-IsLinked actor s h m
  call-IsLinked (to_create_sprint r) = create_sprint-IsLinked actor s h r
  call-IsLinked (to_create_task t) = create_task-IsLinked actor s h t
  call-IsLinked (to_update_task id u) = update_task-IsLinked actor s h id u
  call-IsLinked (to_assign_task id worker_id role) =
      assign_task-IsLinked actor s h id worker_id role
  call-IsLinked (to_add_dependency d) = add_dependency-IsLinked actor s h d
  call-IsLinked (to_add_comment id author body) = add_comment-IsLinked actor s h id author body

-- On a database that checks foreign keys, for any sequence of calls of create_project,
-- update_project, create_milestone, create_sprint, create_task, update_task, assign_task,
-- add_dependency and add_comment, however each ends: if every owner, project, sprint, milestone,
-- employee and task that a row refers to exists, the rows of the activity log included, and no task
-- depends on itself, that is so after the last call.
pub call_all-IsLinked :
    (actor : Text) (cs : List WorkCall) (s : WorkDb)
    → IsLinked s
    → IsLinked (call_all actor true cs s)
call_all-IsLinked actor [] s h = h
call_all-IsLinked actor (c ∷ cs) s h =
    call_all-IsLinked actor cs (call actor true c s).1 (call-IsLinked actor s h c)
