-- ===== src/Work/Writes.antt =====
-- The update and the assignment of a task keep the references between rows
-- (backend/app/services/work.py).
use wes.Base.{
  ◌++◌, All-find, find, ℕ, false, Option, none, some, List, [], ◌∷◌, ◌==◌, ◌≡◌, refl, arith, inl,
  inr, Bool-cases, Option-cases, Text, ok, err, validation, not_found, All-append, modify-All_to,
}
use wes.Work.State.{
  Assignment, project_key, task_updated, task_status_changed, task_assigned, AssignmentRole,
  assignee, reviewer, Worker, WorkItem, WorkDb, WorkStatus, sprint_key, milestone_key, worker_key,
  task_key,
}
use wes.Work.Tasks.{find_worker, active_worker}
use wes.Work.Changes.{
  WorkItemUpdate, value_of, given_or, with_update, log_update, status_code, write_task,
  write_update, update_missing, get_task, update_task, give, write_assignment, assign_task,
}
use wes.Work.Links.{
  log_activity-IsLinked, activities_later, Has, Refers, TaskLinked, AssignmentLinked, IsLinked,
  Extends, Has-modify, projects_later, milestones_later, sprints_later, task_later,
  assignments_later, dependencies_later, comments_later,
}
use wes.Work.Found.{found-Has, RefsFound, refs_missing-RefsFound, ends_with}

pub given_or-Refers :
    {A : Type 0} (key : A → ℕ) (t : List A) (old : Option ℕ) (new : Option (Option ℕ))
    → Refers key t old
    → Refers key t (value_of new)
    → Refers key t (given_or old new)
given_or-Refers key t old none h k = h
given_or-Refers key t old (some v) h k = k

with_update-TaskLinked :
    (s : WorkDb) (u : WorkItemUpdate)
    → RefsFound
        (value_of u.sprint_id)
        (value_of u.milestone_id)
        (value_of u.assigned_ai_employee_id)
        (value_of u.reviewer_ai_employee_id)
        s
    → (r : WorkItem) → TaskLinked s r
    → TaskLinked s (with_update u r)
with_update-TaskLinked s u f r h = (
  h.0,
  given_or-Refers sprint_key s.sprints r.sprint_id u.sprint_id h.1 f.0,
  given_or-Refers milestone_key s.milestones r.milestone_id u.milestone_id h.2 f.1,
  given_or-Refers worker_key s.workers r.assigned_ai_employee_id u.assigned_ai_employee_id h.3 f.2,
  given_or-Refers worker_key s.workers r.reviewer_ai_employee_id u.reviewer_ai_employee_id h.4 f.3,
)

give-TaskLinked :
    (actor : Text) (s : WorkDb) (role : AssignmentRole) (id : ℕ)
    → Has worker_key s.workers id
    → (r : WorkItem) → TaskLinked s r
    → TaskLinked s (give actor role id r)
give-TaskLinked actor s reviewer id k r h = (h.0, h.1, h.2, h.3, k)
give-TaskLinked actor s assignee id k r h = (h.0, h.1, h.2, k, h.4)

give_key :
    (actor : Text) (role : AssignmentRole) (id : ℕ) (r : WorkItem)
    → task_key (give actor role id r) ≡ task_key r
give_key actor reviewer id r = refl
give_key actor assignee id r = refl

log_update-IsLinked :
    (actor : Text) (t : WorkItem) (status : Option WorkStatus) (s : WorkDb)
    → IsLinked s
    → Has project_key s.projects t.project_id
    → Has task_key s.tasks t.id
    → IsLinked (log_update actor t status s)
log_update-IsLinked actor t none s h k l =
    log_activity-IsLinked actor (some t.project_id) (some t.id) task_updated s h k l
log_update-IsLinked actor t (some new) s h k l =
    elim (Bool-cases (status_code new == status_code t.status)) [
      | inl e ↦
          rw e (log_activity-IsLinked actor (some t.project_id) (some t.id) task_updated s h k l)
      | inr e ↦ rw e (
          log_activity-IsLinked actor (some t.project_id) (some t.id)
            (task_status_changed t.status new) s h k l)
    ]

module _ (s : WorkDb) (h : IsLinked s) (f : WorkItem → WorkItem)
    (same : (r : WorkItem) → task_key (f r) ≡ task_key r) where
  write_task-Extends : (id : ℕ) → Extends s (write_task id f s)
  write_task-Extends id =
      (λ i k. k, λ i k. k, λ i k. k, λ i k. k, Has-modify task_key f same id s.tasks)

  write_task-IsLinked :
      (id : ℕ)
      → ((r : WorkItem) → TaskLinked s r → TaskLinked s (f r))
      → IsLinked (write_task id f s)
  write_task-IsLinked id kept =
      let t = write_task id f s in
      let g = write_task-Extends id in
      (
        projects_later s t g h,
        milestones_later s t g h,
        sprints_later s t g h,
        modify-All_to task_key (TaskLinked s) (TaskLinked t) (task_later s t g) id f s.tasks
            (λ r q k. task_later s t g (f r) (kept r k)) h.3,
        assignments_later s t g h,
        dependencies_later s t g h,
        comments_later s t g h,
        activities_later s t g h,
      )

module _ (actor : Text) (s : WorkDb) (h : IsLinked s) where
  write_update-IsLinked :
      (id : ℕ) (u : WorkItemUpdate) (t : WorkItem)
      → find task_key id s.tasks ≡ some t
      → update_missing u s ≡ false
      → IsLinked (write_update actor id u t s)
  write_update-IsLinked id u t e m =
      let found =
        refs_missing-RefsFound (value_of u.sprint_id) (value_of u.milestone_id)
          (value_of u.assigned_ai_employee_id) (value_of u.reviewer_ai_employee_id) s m in
      log_update-IsLinked actor t u.status (write_task id (with_update u) s)
        (write_task-IsLinked s h (with_update u) (λ r. refl) id (with_update-TaskLinked s u found))
        (All-find task_key (TaskLinked s) id t s.tasks h.3 e).0
        (Has-modify task_key (with_update u) (λ r. refl) id s.tasks t.id
          (found-Has task_key (λ r. r.id == id) s.tasks t e))

  pub update_task-IsLinked : (id : ℕ) (u : WorkItemUpdate) → IsLinked (update_task actor id u s).1
  unfolding update_task
  update_task-IsLinked id u =
      let ended = update_task actor id u s in
      elim (Option-cases (get_task id s)) [
        | inl e ↦ ends_with ended (err not_found, s) (ground arith) h
        | inr (t, e) ↦ elim (Bool-cases (update_missing u s)) [
          | inl m ↦ ends_with ended (err validation, s) (ground arith) h
          | inr m ↦
              ends_with ended (ok tt, write_update actor id u t s) (ground arith)
                (write_update-IsLinked id u t e m)
        ]
      ]

  write_assignment-IsLinked :
      (t : WorkItem) (id : ℕ) (role : AssignmentRole) (w : Worker)
      → find task_key id s.tasks ≡ some t
      → Has worker_key s.workers w.id
      → IsLinked (write_assignment actor t id role w s)
  write_assignment-IsLinked t id role w e l =
      let f = give actor role w.id in
      let same = give_key actor role w.id in
      let u = write_task id f s in
      let row : Assignment = record {
        work_item_id = t.id;
        ai_employee_id = w.id;
        role = role;
        assigned_by = actor;
      } in
      let there =
        Has-modify task_key f same id s.tasks t.id
          (found-Has task_key (λ r. r.id == id) s.tasks t e) in
      let hu = write_task-IsLinked s h f same id (give-TaskLinked actor s role w.id l) in
      log_activity-IsLinked actor (some t.project_id) (some t.id) (task_assigned role w.name)
        (record u { assignments = s.assignments ++ row ∷ [] })
        (
          hu.0,
          hu.1,
          hu.2,
          hu.3,
          All-append (AssignmentLinked u) s.assignments (row ∷ []) hu.4 ((there, l), tt),
          hu.5,
          hu.6,
          hu.7,
        )
        (All-find task_key (TaskLinked s) id t s.tasks h.3 e).0 there

  pub assign_task-IsLinked :
      (id worker_id : ℕ) (role : AssignmentRole)
      → IsLinked (assign_task actor id worker_id role s).1
  unfolding assign_task
  assign_task-IsLinked id worker_id role =
      let ended = assign_task actor id worker_id role s in
      elim (Option-cases (get_task id s)) [
        | inl e ↦ ends_with ended (err not_found, s) (ground arith) h
        | inr (t, e) ↦ elim (Option-cases (find_worker worker_id s)) [
          | inl e' ↦ ends_with ended (err validation, s) (ground arith) h
          | inr (w, e') ↦
              ends_with ended (ok tt, write_assignment actor t id role w s) (ground arith)
                (write_assignment-IsLinked t id role w e
                  (found-Has worker_key (active_worker worker_id) s.workers w e'))
        ]
      ]
