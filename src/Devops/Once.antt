-- ===== src/Devops/Once.antt =====
-- Approvals are used up, and what a rollback leaves behind
-- (backend/app/services/devops_deploy.py, backend/app/services/devops_pipeline.py).
use mathlib.Core.Option
use wes.Base.{
  ℕ, ◌≡◌, refl, ap, subst, sym, ◌∙◌, Bool, true, false, Option, none, some, List, ◌++◌, Text, inl,
  inr, Bool-cases, find, modify, first-append, find-modify_self, key_of_find, arith, is_ok, ok, err,
  validation, ◌==◌,
}
use wes.Devops.State.{
  RollbackHistory, DeploymentRun, RollbackStatus, ReleaseVersion, PipelineRun, DevopsDb,
  deployment_id, release_id, pipeline_id, is_deployed, get_by_name,
}
use wes.Devops.Deploy.{
  Host, deploy_run, deploy, approve_production, rollback, supersede, roll_back, artifact_for,
  newest, live_in, must_wait,
}
use wes.Devops.Run.{deploy_production, close_pipeline, release_if}
use wes.Devops.Outcomes.{
  IsApprovable, approve_production_cases, approve_production_lem, rollback_lem, logged,
}
use wes.Devops.Gate.{
  deploy_production_cases, deploy_production_lem, IsDeployable, closed, final_run,
}

-- The row that a key finds is written, also after rows were added.
written :
    (id : ℕ) (f : DeploymentRun → DeploymentRun) (d : DeploymentRun) (t u : List DeploymentRun)
    → ((r : DeploymentRun) → deployment_id (f r) ≡ deployment_id r)
    → find deployment_id id t ≡ some d
    → find deployment_id id (modify deployment_id d.id f (t ++ u)) ≡ some (f d)
written id f d t u same found =
    subst (λ k. find deployment_id id (modify deployment_id k f (t ++ u)) ≡ some (f d))
      (sym (key_of_find deployment_id id d t found))
      (find-modify_self deployment_id f same id (t ++ u)
        ∙ ap (Option.map f) (first-append (λ r. deployment_id r == id) t u d found))

module _ (host : Host) where
  superseded_after :
      (id now run_id : ℕ) (by : Text) (s : DevopsDb) (a : IsApprovable run_id s)
      → find deployment_id run_id (approve_production host id now run_id by s).1.deployments
        ≡ some (supersede a.run)
  unfolding deploy
  superseded_after id now run_id by s a =
      rw (approve_production_lem host id now run_id by s a)
        (written run_id supersede a.run s.deployments _ (λ r. refl) a.found)

  refused_again :
      (id now run_id : ℕ) (by : Text) (s : DevopsDb) (run : DeploymentRun)
      → find deployment_id run_id s.deployments ≡ some (supersede run)
      → approve_production host id now run_id by s ≡ (err validation, s)
  unfolding approve_production
  refused_again id now run_id by s run found = ground arith

  -- A waiting deployment is approved once: after an approval that went through, another one of the
  -- same deployment is refused and changes nothing, also if the approved deployment failed.
  pub approve_once :
      (id now run_id : ℕ) (by : Text) (id' now' : ℕ) (by' : Text) (s : DevopsDb)
      → is_ok (approve_production host id now run_id by s).0 ≡ true
      → let s' = (approve_production host id now run_id by s).1 in
        approve_production host id' now' run_id by' s' ≡ (err validation, s')
  approve_once id now run_id by id' now' by' s done =
      elim (approve_production_cases host id now run_id by s) [
        | inl (e, q) ↦ cc (rw q at done)
        | inr a ↦ refused_again id' now' run_id by' _ a.run (superseded_after id now run_id by s a)
      ]

  not_deployed :
      (id now : ℕ) (release : ReleaseVersion) (environment : Text) (pipeline : Option ℕ)
      (by : Option Text) (s : DevopsDb)
      → artifact_for release s ≡ none
      → is_deployed (deploy_run host id now release environment pipeline by s).status ≡ false
  unfolding deploy_run
  not_deployed id now release environment pipeline by s missing =
      elim (Bool-cases (must_wait (get_by_name environment s) by)) [
        | inl e ↦ rw e refl
        | inr e ↦ rw (e, missing) refl
      ]

  -- A rollback to a release without an artifact is reported as failed, but the deployment that was
  -- live is marked as rolled back all the same.
  pub rollback_abandons :
      (history_id id now : ℕ) (environment : Text) (to : ℕ) (reason : Option Text) (actor : Text)
      (s : DevopsDb) (release : ReleaseVersion) (live : DeploymentRun)
      → find release_id to s.releases ≡ some release
      → artifact_for release s ≡ none
      → newest (live_in environment) s.deployments ≡ some live
      → find deployment_id live.id s.deployments ≡ some live
      → let (r, s') = rollback host history_id id now environment to reason actor s in
        ((h : RollbackHistory) × (r ≡ ok h) × (h.status ≡ RollbackStatus.failed))
        × (find deployment_id live.id s'.deployments ≡ some (roll_back live))
  unfolding deploy
  rollback_abandons history_id id now environment to reason actor s release live found missing
        newest_is live_is =
      rw (rollback_lem host history_id id now environment to reason actor s release found) (
        (
          _,
          refl,
          rw
              (not_deployed id now release environment none (some actor)
                (logged host history_id id now environment to reason actor s release) missing)
              refl,
        ),
        rw newest_is (written live.id roll_back live s.deployments _ (λ r. refl) live_is),
      )

  module _ (version_text : ℕ → Text) where
    closed_after :
        (deploy_id now id : ℕ) (by : Text) (s : DevopsDb) (d : IsDeployable host version_text id s)
        → find pipeline_id id
            (deploy_production host version_text deploy_id now id by s).1.pipelines
          ≡ some (
              close_pipeline host version_text
                (is_deployed (final_run host version_text deploy_id now id by s d).status)
                d.pipe)
    unfolding deploy
    closed_after deploy_id now id by s d =
        let deployed = is_deployed (final_run host version_text deploy_id now id by s d).status in
        rw (deploy_production_lem host version_text deploy_id now id by s d) (
          pipelines_kept deployed d.release (closed host version_text deploy_id now id by s d)
          ∙ (find-modify_self pipeline_id (close_pipeline host version_text deployed) (λ r. refl) id
                s.pipelines
              ∙ ap (Option.map (close_pipeline host version_text deployed)) d.found))
      where
        pipelines_kept :
            (b : Bool) (r : ReleaseVersion) (t : DevopsDb)
            → find pipeline_id id (release_if host version_text b r t).pipelines
              ≡ find pipeline_id id t.pipelines
        pipelines_kept true r t = refl
        pipelines_kept false r t = refl

    closed_refused :
        (deploy_id now id : ℕ) (by : Text) (s : DevopsDb) (b : Bool) (pipe : PipelineRun)
        → find pipeline_id id s.pipelines ≡ some (close_pipeline host version_text b pipe)
        → deploy_production host version_text deploy_id now id by s ≡ (err validation, s)
    unfolding deploy_production
    closed_refused deploy_id now id by s true pipe found = ground arith
    closed_refused deploy_id now id by s false pipe found = ground arith

    -- A pipeline deploys to production once: after a production deployment of a pipeline that went
    -- through, another one of the same pipeline is refused and changes nothing, also if the
    -- deployment failed.
    pub deploy_production_once :
        (deploy_id now id : ℕ) (by : Text) (deploy_id' now' : ℕ) (by' : Text) (s : DevopsDb)
        → is_ok (deploy_production host version_text deploy_id now id by s).0 ≡ true
        → let s' = (deploy_production host version_text deploy_id now id by s).1 in
          deploy_production host version_text deploy_id' now' id by' s' ≡ (err validation, s')
    deploy_production_once deploy_id now id by deploy_id' now' by' s done =
        elim (deploy_production_cases host version_text deploy_id now id by s) [
          | inl (e, q) ↦ cc (rw q at done)
          | inr d ↦
              closed_refused deploy_id' now' id by' _ _ d.pipe
                (closed_after deploy_id now id by s d)
        ]
