-- ===== src/Work/Kept.antt =====
-- The operations that add projects, milestones, sprints and tasks keep the references between rows
-- (backend/app/services/work.py).
use wes.Base.{
  ℕ, Option, none, some, is_some, [], ◌∷◌, ◌++◌, arith, inl, inr, Bool-cases, Option-cases, Text,
  ok, err, validation, conflict, All-append, first, find, text_eq,
}
use wes.Work.State.{
  Project, Milestone, ProjectSprint, WorkItem, WorkDb, project_key, milestone_key, sprint_key,
  task_key, project_created, milestone_created, sprint_created, task_created,
}
use wes.Work.Tasks.{
  refs_missing, owner_missing, add_project, add_milestone, add_sprint, add_task, create_project,
  create_milestone, create_sprint, create_task,
}
use wes.Work.Links.{
  Has, TaskLinked, ProjectLinked, MilestoneLinked, SprintLinked, IsLinked, Extends, Has-append,
  projects_later, milestones_later, sprints_later, tasks_later, task_later, assignments_later,
  dependencies_later, comments_later, activities_later, Has-added, log_activity-IsLinked,
}
use wes.Work.Found.{some-Has, worker-Refers, RefsFound, refs_missing-RefsFound, ends_with}

module _ (actor : Text) (s : WorkDb) (h : IsLinked s) where
  add_project-Extends : (p : Project) → Extends s (record s { projects = s.projects ++ p ∷ [] })
  add_project-Extends p =
      (λ id k. k, Has-append project_key s.projects (p ∷ []), λ id k. k, λ id k. k, λ id k. k)

  add_project-IsLinked : (p : Project) → ProjectLinked s p → IsLinked (add_project actor p s)
  add_project-IsLinked p k =
      let t = record s { projects = s.projects ++ p ∷ [] } in
      let g = add_project-Extends p in
      log_activity-IsLinked actor (some p.id) none (project_created p.name) t
        (
          All-append (ProjectLinked t) s.projects (p ∷ []) (projects_later s t g h) (k, tt),
          milestones_later s t g h,
          sprints_later s t g h,
          tasks_later s t g h,
          assignments_later s t g h,
          dependencies_later s t g h,
          comments_later s t g h,
          activities_later s t g h,
        )
        (Has-added project_key s.projects p) tt

  pub create_project-IsLinked :
      (id : ℕ) (code name : Text) (owner : Option ℕ)
      → IsLinked (create_project actor id code name owner s).1
  unfolding create_project
  create_project-IsLinked id code name owner =
      elim (Bool-cases (is_some (first (λ (p : Project). text_eq p.code code) s.projects))) [
        | inl e ↦ rw e h
        | inr e ↦ rw e (elim (Bool-cases (owner_missing owner s)) [
          | inl e' ↦ rw e' h
          | inr e' ↦ rw e' (
              add_project-IsLinked
                (record {
                  id = id;
                  code = code;
                  name = name;
                  owner_ai_employee_id = owner;
                  version = 1;
                })
                (worker-Refers s owner e'))
        ])
      ]

  add_milestone-Extends :
      (m : Milestone) → Extends s (record s { milestones = s.milestones ++ m ∷ [] })
  add_milestone-Extends m =
      (λ id k. k, λ id k. k, Has-append milestone_key s.milestones (m ∷ []), λ id k. k, λ id k. k)

  add_milestone-IsLinked :
      (m : Milestone) → MilestoneLinked s m → IsLinked (add_milestone actor m s)
  add_milestone-IsLinked m k =
      let t = record s { milestones = s.milestones ++ m ∷ [] } in
      let g = add_milestone-Extends m in
      log_activity-IsLinked actor (some m.project_id) none (milestone_created m.name) t
        (
          projects_later s t g h,
          All-append (MilestoneLinked t) s.milestones (m ∷ []) (milestones_later s t g h) (k, tt),
          sprints_later s t g h,
          tasks_later s t g h,
          assignments_later s t g h,
          dependencies_later s t g h,
          comments_later s t g h,
          activities_later s t g h,
        )
        k tt

  pub create_milestone-IsLinked : (m : Milestone) → IsLinked (create_milestone actor m s).1
  unfolding create_milestone
  create_milestone-IsLinked m = elim (Option-cases (find project_key m.project_id s.projects)) [
    | inl e ↦ rw e h
    | inr (p, e) ↦
        rw e (add_milestone-IsLinked m (some-Has project_key s.projects m.project_id p e))
  ]

  add_sprint-Extends : (r : ProjectSprint) → Extends s (record s { sprints = s.sprints ++ r ∷ [] })
  add_sprint-Extends r =
      (λ id k. k, λ id k. k, λ id k. k, Has-append sprint_key s.sprints (r ∷ []), λ id k. k)

  add_sprint-IsLinked : (r : ProjectSprint) → SprintLinked s r → IsLinked (add_sprint actor r s)
  add_sprint-IsLinked r k =
      let t = record s { sprints = s.sprints ++ r ∷ [] } in
      let g = add_sprint-Extends r in
      log_activity-IsLinked actor (some r.project_id) none (sprint_created r.sprint_number) t
        (
          projects_later s t g h,
          milestones_later s t g h,
          All-append (SprintLinked t) s.sprints (r ∷ []) (sprints_later s t g h) (k, tt),
          tasks_later s t g h,
          assignments_later s t g h,
          dependencies_later s t g h,
          comments_later s t g h,
          activities_later s t g h,
        )
        k tt

  pub create_sprint-IsLinked : (r : ProjectSprint) → IsLinked (create_sprint actor r s).1
  unfolding create_sprint
  create_sprint-IsLinked r = elim (Option-cases (find project_key r.project_id s.projects)) [
    | inl e ↦ rw e h
    | inr (p, e) ↦ rw e (add_sprint-IsLinked r (some-Has project_key s.projects r.project_id p e))
  ]

  add_task-Extends : (r : WorkItem) → Extends s (record s { tasks = s.tasks ++ r ∷ [] })
  add_task-Extends r =
      (λ id k. k, λ id k. k, λ id k. k, λ id k. k, Has-append task_key s.tasks (r ∷ []))

  add_task-IsLinked : (r : WorkItem) → TaskLinked s r → IsLinked (add_task actor r s)
  add_task-IsLinked r k =
      let t = record s { tasks = s.tasks ++ r ∷ [] } in
      let g = add_task-Extends r in
      log_activity-IsLinked actor (some r.project_id) (some r.id) (task_created r.title) t
        (
          projects_later s t g h,
          milestones_later s t g h,
          sprints_later s t g h,
          All-append (TaskLinked t) s.tasks (r ∷ []) (tasks_later s t g h)
              (task_later s t g r k, tt),
          assignments_later s t g h,
          dependencies_later s t g h,
          comments_later s t g h,
          activities_later s t g h,
        )
        k.0 (Has-added task_key s.tasks r)

  -- A task whose references were tested.
  created-IsLinked :
      (r : WorkItem)
      → Has project_key s.projects r.project_id
      → RefsFound r.sprint_id r.milestone_id r.assigned_ai_employee_id r.reviewer_ai_employee_id s
      → IsLinked (add_task actor r s)
  created-IsLinked r k f = add_task-IsLinked r (k, f.0, f.1, f.2, f.3)

  pub create_task-IsLinked : (r : WorkItem) → IsLinked (create_task actor r s).1
  unfolding create_task
  create_task-IsLinked r =
      let ended = create_task actor r s in
      elim (Bool-cases
        (is_some (first (λ (q : WorkItem). text_eq q.task_code r.task_code) s.tasks))) [
          | inl e ↦ ends_with ended (err conflict, s) (ground arith) h
          | inr e ↦ elim (Option-cases (find project_key r.project_id s.projects)) [
            | inl e' ↦ ends_with ended (err validation, s) (ground arith) h
            | inr (p, e') ↦
                elim (Bool-cases (
                  refs_missing r.sprint_id r.milestone_id r.assigned_ai_employee_id
                    r.reviewer_ai_employee_id s)) [
                      | inl m ↦ ends_with ended (err validation, s) (ground arith) h
                      | inr m ↦
                          ends_with ended (ok tt, add_task actor r s) (ground arith)
                            (created-IsLinked r (some-Has project_key s.projects r.project_id p e')
                              (refs_missing-RefsFound r.sprint_id r.milestone_id
                                r.assigned_ai_employee_id r.reviewer_ai_employee_id s m))
                    ]
          ]
        ]
