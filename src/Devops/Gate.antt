-- ===== src/Devops/Gate.antt =====
-- Deployments and approvals over any sequence of the service's operations
-- (backend/app/services/devops_deploy.py, backend/app/services/devops_pipeline.py).
use wes.Base.{
  ℕ, ◌≡◌, refl, Bool, true, false, Option, none, some, List, [], ◌∷◌, Text, text_eq, All,
  All-append, keep, keep-refused, inl, inr, Bool-cases, Option-cases, find, modify, arith,
  not_found, validation, Error, err, ok, ◌⊎◌, ◌∙◌,
}
use wes.Devops.State.{
  is_deployed, DeploymentRun, ReleaseVersion, PipelineRun, DevopsDb, DevelopmentTask, production,
  staging, task_id, pipeline_id, is_approved, is_awaiting_production, get_release,
}
use wes.Devops.Deploy.{Host, deploy_run, deploy, approve_production, rollback}
use wes.Devops.Pipeline.{World}
use wes.Devops.Run.{close_pipeline, release_if, run, run_stages, new_pipeline, deploy_production}
use wes.Devops.Stages.{stages-Holds}
use wes.Devops.Approval.{
  deploy_run-environment, IsApproved, Gated, deploy_run-IsApproved, deploy-Gated,
  approve_production-Gated, rollback-Gated,
}

-- An operation that deploys, with its arguments.
pub data Command : Type 0 where
  run_pipeline :
      (w : World) (actor : Text) (now id task : ℕ) (environment : Text) (triggered_by : Option Text)
      → Command
  approve : (id now run_id : ℕ) (approved_by : Text) → Command
  roll_back_to :
      (history_id id now : ℕ) (environment : Text) (to : ℕ) (reason : Option Text) (actor : Text)
      → Command
  release_production : (deploy_id now id : ℕ) (approved_by : Text) → Command

abbrev pub in_production : DeploymentRun → Bool
in_production d = text_eq d.environment production

module _ (host : Host) (version_text : ℕ → Text) where
  abbrev pub perform : Command → DevopsDb → DevopsDb
  perform (run_pipeline w actor now id task environment by) s =
      (run host version_text w actor now id task environment by s).1
  perform (approve id now run_id by) s = (approve_production host id now run_id by s).1
  perform (roll_back_to history_id id now environment to reason actor) s =
      (rollback host history_id id now environment to reason actor s).1
  perform (release_production deploy_id now id by) s =
      (deploy_production host version_text deploy_id now id by s).1

  abbrev pub perform_all : List Command → DevopsDb → DevopsDb
  perform_all [] s = s
  perform_all (c ∷ cs) s = perform_all cs (perform c s)

  module _ (w : World) (actor : Text) (now id task : ℕ) (environment : Text) (by : Option Text)
      (s : DevopsDb) where
    -- A run is refused with nothing written, or the stages of an approved task run.
    pub run_cases :
        ((e : Error) × (run host version_text w actor now id task environment by s ≡ (err e, s)))
        ⊎ ((t : DevelopmentTask) × (run host version_text w actor now id task environment by s
              ≡ run_stages host version_text w actor now
                  (new_pipeline host version_text w actor now id environment by t s)
                  s))
    unfolding run
    run_cases = elim (Option-cases (find task_id task s.tasks)) [
      | inl e ↦ inl (not_found, ground arith)
      | inr (t, e) ↦ elim (Bool-cases (is_approved t.status)) [
        | inr no_go ↦ inl (validation, ground arith)
        | inl go ↦ inr (t, ground arith)
      ]
    ]

  run_stages-Gated :
      (w : World) (actor : Text) (now : ℕ) (pipe : PipelineRun) (s : DevopsDb)
      → Gated s
      → Gated (run_stages host version_text w actor now pipe s).1
  unfolding run_stages
  run_stages-Gated w actor now pipe s h =
      stages-Holds host version_text w actor now (λ envs ds. All (IsApproved envs) ds)
        (λ release pipeline t k.
          All-append (IsApproved t.environments) t.deployments _ k
            (deploy_run-IsApproved host w.deploy_id now release staging pipeline none t, tt))
        (record { db = s; pipe = pipe }) h

  run-Gated :
      (w : World) (actor : Text) (now id task : ℕ) (environment : Text) (by : Option Text)
      (s : DevopsDb)
      → Gated s
      → Gated (run host version_text w actor now id task environment by s).1
  run-Gated w actor now id task environment by s h =
      elim (run_cases w actor now id task environment by s) [
        | inl (e, q) ↦ rw q h
        | inr (t, q) ↦ rw q (run_stages-Gated w actor now _ s h)
      ]

  -- Production may be deployed to: the pipeline waits for it and has a release.
  pub record IsDeployable (id : ℕ) (s : DevopsDb) : Type 0 where
    pub pipe : PipelineRun
    pub found : find pipeline_id id s.pipelines ≡ some pipe
    pub waits : is_awaiting_production pipe.status ≡ true
    pub release : ReleaseVersion
    pub its_release : get_release pipe.release_version_id s ≡ some release

  module _ (deploy_id now id : ℕ) (by : Text) (s : DevopsDb) where
    pub deploy_production_cases :
        ((e : Error) × (deploy_production host version_text deploy_id now id by s ≡ (err e, s)))
        ⊎ IsDeployable id s
    unfolding deploy_production
    deploy_production_cases = elim (Option-cases (find pipeline_id id s.pipelines)) [
      | inl e ↦ inl (not_found, ground arith)
      | inr (pipe, found) ↦ elim (Bool-cases (is_awaiting_production pipe.status)) [
        | inr e ↦ inl (validation, ground arith)
        | inl waits ↦ elim (Option-cases (get_release pipe.release_version_id s)) [
          | inl e ↦ inl (validation, ground arith)
          | inr (release, its) ↦ inr (record {
            pipe = pipe;
            found = found;
            waits = waits;
            release = release;
            its_release = its;
          })
        ]
      ]
    ]

    module _ (d : IsDeployable id s) where
      abbrev pub final_run : DeploymentRun
      final_run = deploy_run host deploy_id now d.release production (some d.pipe.id) (some by) s

      abbrev pub closed : DevopsDb
      closed =
          let t = (deploy host deploy_id now d.release production (some d.pipe.id) (some by) s).1 in
          record t {
            pipelines =
                modify pipeline_id id
                  (close_pipeline host version_text (is_deployed final_run.status)) t.pipelines;
          }

      pub deploy_production_lem : deploy_production host version_text deploy_id now id by s ≡ (
        ok (close_pipeline host version_text (is_deployed final_run.status) d.pipe),
        release_if host version_text (is_deployed final_run.status) d.release closed,
      )
      unfolding deploy_production deploy
      deploy_production_lem = ground (arith, d.found, d.waits, d.its_release)

  release_if-Gated :
      (b : Bool) (r : ReleaseVersion) (s : DevopsDb)
      → Gated s
      → Gated (release_if host version_text b r s)
  release_if-Gated true r s h = h
  release_if-Gated false r s h = h

  deploy_production-Gated :
      (deploy_id now id : ℕ) (by : Text) (s : DevopsDb)
      → Gated s
      → Gated (deploy_production host version_text deploy_id now id by s).1
  deploy_production-Gated deploy_id now id by s h =
      elim (deploy_production_cases deploy_id now id by s) [
        | inl (e, q) ↦ rw q h
        | inr d ↦ rw (deploy_production_lem deploy_id now id by s d) (
            release_if-Gated _ d.release (closed deploy_id now id by s d)
              (deploy-Gated host deploy_id now d.release production (some d.pipe.id) (some by) s h))
      ]

  perform-Gated : (c : Command) (s : DevopsDb) → Gated s → Gated (perform c s)
  perform-Gated (run_pipeline w actor now id task environment by) s h =
      run-Gated w actor now id task environment by s h
  perform-Gated (approve id now run_id by) s h = approve_production-Gated host id now run_id by s h
  perform-Gated (roll_back_to history_id id now environment to reason actor) s h =
      rollback-Gated host history_id id now environment to reason actor s h
  perform-Gated (release_production deploy_id now id by) s h =
      deploy_production-Gated deploy_id now id by s h

  -- If no deployment stands in an environment that wants an approval without one, then none does
  -- after any sequence of pipeline runs, approvals, rollbacks and production deployments.
  pub perform_all-Gated : (cs : List Command) (s : DevopsDb) → Gated s → Gated (perform_all cs s)
  perform_all-Gated [] s h = h
  perform_all-Gated (c ∷ cs) s h = perform_all-Gated cs (perform c s) (perform-Gated c s h)

  staged_only :
      (w : World) (now : ℕ) (r : ReleaseVersion) (p : Option ℕ) (s : DevopsDb)
      → in_production (deploy_run host w.deploy_id now r staging p none s) ≡ false
  staged_only w now r p s = rw (deploy_run-environment host w.deploy_id now r staging p none s) refl

  run_stages_spares :
      (w : World) (actor : Text) (now : ℕ) (pipe : PipelineRun) (s : DevopsDb)
      → keep in_production (run_stages host version_text w actor now pipe s).1.deployments
        ≡ keep in_production s.deployments
  unfolding run_stages
  run_stages_spares w actor now pipe s =
      stages-Holds host version_text w actor now
        (λ envs ds. keep in_production ds ≡ keep in_production s.deployments)
        (λ r p t k. keep-refused in_production t.deployments _ (staged_only w now r p t) ∙ k)
        (record { db = s; pipe = pipe }) refl

  -- A pipeline run, however it ends, leaves the deployments to production as they were.
  pub run_spares_production :
      (w : World) (actor : Text) (now id task : ℕ) (environment : Text) (by : Option Text)
      (s : DevopsDb)
      → keep in_production
          (run host version_text w actor now id task environment by s).1.deployments
        ≡ keep in_production s.deployments
  run_spares_production w actor now id task environment by s =
      elim (run_cases w actor now id task environment by s) [
        | inl (e, q) ↦ rw q refl
        | inr (t, q) ↦ rw q (run_stages_spares w actor now _ s)
      ]
