-- ===== src/Work/Notes.antt =====
-- New comments and dependencies keep the references between rows (backend/app/services/work.py).
use wes.Base.{
  ℕ, Option, none, some, [], ◌∷◌, ◌++◌, ◌==◌, arith, inl, inr, Bool-cases, Option-cases, Text, ok,
  err, validation, not_found, All-append,
}
use wes.Work.State.{
  Comment, WorkDependency, WorkDb, task_key, task_dependency_added, task_commented,
}
use wes.Work.Changes.{
  get_task, write_dependency, add_dependency, write_comment, add_comment, author_of,
}
use wes.Work.Links.{Has, DependencyLinked, CommentLinked, IsLinked, log_activity-IsLinked}
use wes.Work.Found.{some-Has, ends_with}

module _ (actor : Text) (s : WorkDb) (h : IsLinked s) where
  write_comment-IsLinked :
      (id : ℕ) (author : Option Text) (body : Text)
      → Has task_key s.tasks id
      → IsLinked (write_comment actor id author body s)
  write_comment-IsLinked id author body k =
      let row : Comment = record {
        work_item_id = id;
        author = author_of actor author;
        body = body;
      } in
      log_activity-IsLinked actor none (some id) task_commented
        (record s { comments = s.comments ++ row ∷ [] })
        (
          h.0,
          h.1,
          h.2,
          h.3,
          h.4,
          h.5,
          All-append (CommentLinked s) s.comments (row ∷ []) h.6 (k, tt),
          h.7,
        )
        tt k

  pub add_comment-IsLinked :
      (id : ℕ) (author : Option Text) (body : Text)
      → IsLinked (add_comment actor id author body s).1
  unfolding add_comment
  add_comment-IsLinked id author body = elim (Option-cases (get_task id s)) [
    | inl e ↦ rw e h
    | inr (t, e) ↦ rw e (write_comment-IsLinked id author body (some-Has task_key s.tasks id t e))
  ]

  write_dependency-IsLinked :
      (d : WorkDependency) → DependencyLinked s d → IsLinked (write_dependency actor d s)
  write_dependency-IsLinked d k =
      log_activity-IsLinked actor none (some d.work_item_id) (task_dependency_added d.kind)
        (record s { dependencies = s.dependencies ++ d ∷ [] })
        (
          h.0,
          h.1,
          h.2,
          h.3,
          h.4,
          All-append (DependencyLinked s) s.dependencies (d ∷ []) h.5 (k, tt),
          h.6,
          h.7,
        )
        tt k.0

  pub add_dependency-IsLinked : (d : WorkDependency) → IsLinked (add_dependency actor d s).1
  unfolding add_dependency
  add_dependency-IsLinked d =
      let ended = add_dependency actor d s in
      elim (Option-cases (get_task d.work_item_id s)) [
        | inl e ↦ ends_with ended (err not_found, s) (ground arith) h
        | inr (t, e) ↦ elim (Bool-cases (d.depends_on_id == d.work_item_id)) [
          | inl same ↦ ends_with ended (err validation, s) (ground arith) h
          | inr other ↦ elim (Option-cases (get_task d.depends_on_id s)) [
            | inl e' ↦ ends_with ended (err validation, s) (ground arith) h
            | inr (u, e') ↦
                ends_with ended (ok tt, write_dependency actor d s) (ground arith)
                  (write_dependency-IsLinked d (
                    some-Has task_key s.tasks d.work_item_id t e,
                    some-Has task_key s.tasks d.depends_on_id u e',
                    other,
                  ))
          ]
        ]
      ]
