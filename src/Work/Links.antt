-- ===== src/Work/Links.antt =====
-- The references between the rows of work management (backend/app/services/work.py).
use wes.Base.{
  ℕ, true, false, Option, none, some, is_some, List, [], ◌∷◌, ◌++◌, ◌==◌, ◌≡◌, arith, All,
  All-append, Text, refl, ==_refl, All-weaken, find, modify,
}
use wes.Work.State.{
  Project, Milestone, ProjectSprint, WorkItem, Assignment, WorkDependency, Comment, Activity,
  ActivityLog, WorkDb, worker_key, project_key, milestone_key, sprint_key, task_key,
}
use wes.Work.Tasks.{log_activity}

abbrev pub Has : {A : Type 0} → (A → ℕ) → List A → ℕ → Type 0
Has key t id = is_some (find key id t) ≡ true

-- A reference that may be null.
abbrev pub Refers : {A : Type 0} → (A → ℕ) → List A → Option ℕ → Type 0
Refers key t none = Unit
Refers key t (some id) = Has key t id

abbrev pub TaskLinked : WorkDb → WorkItem → Type 0
TaskLinked s t =
    Has project_key s.projects t.project_id
    × Refers sprint_key s.sprints t.sprint_id
    × Refers milestone_key s.milestones t.milestone_id
    × Refers worker_key s.workers t.assigned_ai_employee_id
    × Refers worker_key s.workers t.reviewer_ai_employee_id

abbrev pub ProjectLinked : WorkDb → Project → Type 0
ProjectLinked s p = Refers worker_key s.workers p.owner_ai_employee_id

abbrev pub MilestoneLinked : WorkDb → Milestone → Type 0
MilestoneLinked s m = Has project_key s.projects m.project_id

abbrev pub SprintLinked : WorkDb → ProjectSprint → Type 0
SprintLinked s r = Has project_key s.projects r.project_id

abbrev pub AssignmentLinked : WorkDb → Assignment → Type 0
AssignmentLinked s a =
    Has task_key s.tasks a.work_item_id × Has worker_key s.workers a.ai_employee_id

abbrev pub DependencyLinked : WorkDb → WorkDependency → Type 0
DependencyLinked s d =
    Has task_key s.tasks d.work_item_id
    × Has task_key s.tasks d.depends_on_id
    × ((d.depends_on_id == d.work_item_id) ≡ false)

abbrev pub CommentLinked : WorkDb → Comment → Type 0
CommentLinked s c = Has task_key s.tasks c.work_item_id

abbrev pub ActivityLinked : WorkDb → ActivityLog → Type 0
ActivityLinked s a =
    Refers project_key s.projects a.project_id × Refers task_key s.tasks a.work_item_id

-- Every reference of every row is to a row that exists, and no task depends on itself.
abbrev pub IsLinked : WorkDb → Type 0
IsLinked s =
    All (ProjectLinked s) s.projects
    × All (MilestoneLinked s) s.milestones
    × All (SprintLinked s) s.sprints
    × All (TaskLinked s) s.tasks
    × All (AssignmentLinked s) s.assignments
    × All (DependencyLinked s) s.dependencies
    × All (CommentLinked s) s.comments
    × All (ActivityLinked s) s.activity

-- The references that hold before still hold after.
abbrev pub Extends : WorkDb → WorkDb → Type 0
Extends s t =
    ((id : ℕ) → Has worker_key s.workers id → Has worker_key t.workers id)
    × ((id : ℕ) → Has project_key s.projects id → Has project_key t.projects id)
    × ((id : ℕ) → Has milestone_key s.milestones id → Has milestone_key t.milestones id)
    × ((id : ℕ) → Has sprint_key s.sprints id → Has sprint_key t.sprints id)
    × ((id : ℕ) → Has task_key s.tasks id → Has task_key t.tasks id)

pub refer :
    {A : Type 0} (key : A → ℕ) (t u : List A)
    → ((id : ℕ) → Has key t id → Has key u id)
    → (r : Option ℕ) → Refers key t r
    → Refers key u r
refer key t u g none h = tt
refer key t u g (some id) h = g id h

pub Has-append :
    {A : Type 0} (key : A → ℕ) (t u : List A) (id : ℕ) → Has key t id → Has key (t ++ u) id
Has-append key [] u id h = absurd (let b : false ≡ true = h in cc)
Has-append key (x ∷ t) u id h = ground (arith, Has-append key t u id)

pub Has-modify :
    {A : Type 0} (key : A → ℕ) (f : A → A)
    → ((r : A) → key (f r) ≡ key r)
    → (k : ℕ) (t : List A) (id : ℕ) → Has key t id
    → Has key (modify key k f t) id
Has-modify key f same k [] id h = h
Has-modify key f same k (x ∷ t) id h = ground (arith, same x, Has-modify key f same k t id)

module _ (s t : WorkDb) (g : Extends s t) where
  pub task_later : (r : WorkItem) → TaskLinked s r → TaskLinked t r
  task_later r h = (
    g.1 r.project_id h.0,
    refer sprint_key s.sprints t.sprints g.3 r.sprint_id h.1,
    refer milestone_key s.milestones t.milestones g.2 r.milestone_id h.2,
    refer worker_key s.workers t.workers g.0 r.assigned_ai_employee_id h.3,
    refer worker_key s.workers t.workers g.0 r.reviewer_ai_employee_id h.4,
  )

  pub project_later : (r : Project) → ProjectLinked s r → ProjectLinked t r
  project_later r = refer worker_key s.workers t.workers g.0 r.owner_ai_employee_id

  pub assignment_later : (a : Assignment) → AssignmentLinked s a → AssignmentLinked t a
  assignment_later a h = (g.4 a.work_item_id h.0, g.0 a.ai_employee_id h.1)

  pub dependency_later : (d : WorkDependency) → DependencyLinked s d → DependencyLinked t d
  dependency_later d h = (g.4 d.work_item_id h.0, g.4 d.depends_on_id h.1, h.2)

  -- The rows of before, in the state of after.
  pub projects_later : IsLinked s → All (ProjectLinked t) s.projects
  projects_later h = All-weaken (ProjectLinked s) (ProjectLinked t) project_later s.projects h.0

  pub milestones_later : IsLinked s → All (MilestoneLinked t) s.milestones
  milestones_later h =
      All-weaken (MilestoneLinked s) (MilestoneLinked t) (λ m. g.1 m.project_id) s.milestones h.1

  pub sprints_later : IsLinked s → All (SprintLinked t) s.sprints
  sprints_later h =
      All-weaken (SprintLinked s) (SprintLinked t) (λ r. g.1 r.project_id) s.sprints h.2

  pub tasks_later : IsLinked s → All (TaskLinked t) s.tasks
  tasks_later h = All-weaken (TaskLinked s) (TaskLinked t) task_later s.tasks h.3

  pub assignments_later : IsLinked s → All (AssignmentLinked t) s.assignments
  assignments_later h =
      All-weaken (AssignmentLinked s) (AssignmentLinked t) assignment_later s.assignments h.4

  pub dependencies_later : IsLinked s → All (DependencyLinked t) s.dependencies
  dependencies_later h =
      All-weaken (DependencyLinked s) (DependencyLinked t) dependency_later s.dependencies h.5

  pub comments_later : IsLinked s → All (CommentLinked t) s.comments
  comments_later h =
      All-weaken (CommentLinked s) (CommentLinked t) (λ c. g.4 c.work_item_id) s.comments h.6

  activity_later : (a : ActivityLog) → ActivityLinked s a → ActivityLinked t a
  activity_later a h = (
    refer project_key s.projects t.projects g.1 a.project_id h.0,
    refer task_key s.tasks t.tasks g.4 a.work_item_id h.1,
  )

  pub activities_later : IsLinked s → All (ActivityLinked t) s.activity
  activities_later h =
      All-weaken (ActivityLinked s) (ActivityLinked t) activity_later s.activity h.7

-- A row that was added is there.
pub Has-added : {A : Type 0} (key : A → ℕ) (t : List A) (r : A) → Has key (t ++ r ∷ []) (key r)
Has-added key [] r = rw (==_refl (key r)) refl
Has-added key (x ∷ t) r = ground (arith, Has-added key t r)

-- A row of the activity log whose project and task exist.
pub log_activity-IsLinked :
    (actor : Text) (project_id work_item_id : Option ℕ) (action : Activity) (s : WorkDb)
    → IsLinked s
    → Refers project_key s.projects project_id
    → Refers task_key s.tasks work_item_id
    → IsLinked (log_activity actor project_id work_item_id action s)
log_activity-IsLinked actor project_id work_item_id action s h k l = (
  h.0,
  h.1,
  h.2,
  h.3,
  h.4,
  h.5,
  h.6,
  All-append (ActivityLinked s) s.activity
      (record {
        project_id = project_id;
        work_item_id = work_item_id;
        actor = actor;
        action = action;
      }
        ∷ [])
      h.7 ((k, l), tt),
)
