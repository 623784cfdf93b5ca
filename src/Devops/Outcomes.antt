-- ===== src/Devops/Outcomes.antt =====
-- How an approval and a rollback end: refused with nothing written, or carried out
-- (backend/app/services/devops_deploy.py).
use wes.Base.{
  ℕ, ◌≡◌, true, Option, none, some, [], ◌∷◌, ◌++◌, ◌⊎◌, inl, inr, Text, Bool-cases, Option-cases,
  ok, err, Error, not_found, validation, raised, find, modify, arith,
}
use wes.Devops.State.{
  ReleaseVersion, DeploymentRun, RollbackHistory, DevopsDb, release_id, deployment_id, rollback_id,
  is_awaiting_approval, get_release,
}
use wes.Devops.Deploy.{
  Host, deploy_run, deploy, approve_production, rollback, supersede, write_deployment, newest,
  live_in, roll_back_current, new_history, close_history, restore_release,
}

-- The run that an approval names waits for it, and its release exists.
pub record IsApprovable (run_id : ℕ) (s : DevopsDb) : Type 0 where
  pub run : DeploymentRun
  pub found : find deployment_id run_id s.deployments ≡ some run
  pub waits : is_awaiting_approval run.status ≡ true
  pub release : ReleaseVersion
  pub its_release : get_release run.release_version_id s ≡ some release

module _ (host : Host) (id now run_id : ℕ) (by : Text) (s : DevopsDb) where
  pub approve_production_cases :
      ((e : Error) × (approve_production host id now run_id by s ≡ (err e, s)))
      ⊎ IsApprovable run_id s
  unfolding approve_production
  approve_production_cases = elim (Option-cases (find deployment_id run_id s.deployments)) [
    | inl e ↦ inl (not_found, ground arith)
    | inr (run, found) ↦ elim (Bool-cases (is_awaiting_approval run.status)) [
      | inr e ↦ inl (validation, ground arith)
      | inl waits ↦ elim (Option-cases (get_release run.release_version_id s)) [
        | inl e ↦ inl (raised, ground arith)
        | inr (release, its) ↦ inr (record {
          run = run;
          found = found;
          waits = waits;
          release = release;
          its_release = its;
        })
      ]
    ]
  ]

  pub approve_production_lem :
      (a : IsApprovable run_id s)
      → let t = deploy host id now a.release a.run.environment a.run.pipeline_run_id (some by) s in
        approve_production host id now run_id by s ≡ (
          ok (deploy_run host id now a.release a.run.environment a.run.pipeline_run_id (some by) s),
          write_deployment a.run.id supersede t.1,
        )
  unfolding approve_production deploy
  approve_production_lem a = ground (arith, a.found, a.waits, a.its_release)

module _ (host : Host) (history_id id now : ℕ) (environment : Text) (to : ℕ) (reason : Option Text)
    (actor : Text) (s : DevopsDb) where
  pub rollback_unknown :
      find release_id to s.releases ≡ none
      → rollback host history_id id now environment to reason actor s ≡ (err not_found, s)
  unfolding rollback
  rollback_unknown e = ground arith

  module _ (release : ReleaseVersion) where
    abbrev current : Option DeploymentRun
    current = newest (live_in environment) s.deployments

    abbrev history : RollbackHistory
    history = new_history history_id environment release reason actor current

    abbrev pub logged : DevopsDb
    logged = record s { rollbacks = s.rollbacks ++ history ∷ [] }

    abbrev pub redeployed : DeploymentRun
    redeployed = deploy_run host id now release environment none (some actor) logged

    abbrev rolled : DevopsDb
    rolled =
        roll_back_current current
          (deploy host id now release environment none (some actor) logged).1

    pub rollback_lem :
        find release_id to s.releases ≡ some release
        → rollback host history_id id now environment to reason actor s ≡ (
          ok (close_history redeployed history),
          record rolled {
            rollbacks = modify rollback_id history_id (close_history redeployed) rolled.rollbacks;
            releases = modify release_id to restore_release rolled.releases;
          },
        )
    unfolding rollback deploy
    rollback_lem e = ground arith
