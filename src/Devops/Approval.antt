-- ===== src/Devops/Approval.antt =====
-- No deployment without an approval where the environment wants one
-- (backend/app/services/devops_deploy.py, backend/app/services/devops_pipeline.py).
use wes.Base.{
  ℕ, ◌≡◌, refl, Bool, true, false, not, ◌&&◌, Option, none, some, List, Text, text_eq, All,
  All-append, modify-All, first, find, inl, inr, Bool-cases, Option-cases,
}
use wes.Devops.Outcomes.{
  approve_production_cases, approve_production_lem, rollback_unknown, rollback_lem, logged,
}
use wes.Devops.State.{
  is_truthy, release_id, Detail, EnvironmentProfile, ReleaseVersion, DeploymentRun, DevopsDb,
  deployment_id, is_deployed,
}
use wes.Devops.Deploy.{
  install_result, roll_back_current, newest, live_in, fail_run, verified_run, install_artifact,
  write_deployment, Host, deploy_run, deploy, approve_production, rollback, must_wait, supersede,
  roll_back,
}

abbrev profile : Text → List EnvironmentProfile → Option EnvironmentProfile
profile name = first (λ e. text_eq e.name name)

-- Whether the environment, where it has a profile, asks for approvals.
abbrev pub wants_approval : Option EnvironmentProfile → Bool
wants_approval none = false
wants_approval (some env) = env.requires_approval

-- Deployed to an environment that wants an approval, without one.
abbrev pub ungated : List EnvironmentProfile → DeploymentRun → Bool
ungated envs d =
    is_deployed d.status
    && wants_approval (profile d.environment envs)
    && not (is_truthy d.approved_by)

abbrev pub IsApproved : List EnvironmentProfile → DeploymentRun → Type 0
IsApproved envs d = ungated envs d ≡ false

abbrev pub Gated : DevopsDb → Type 0
Gated s = All (IsApproved s.environments) s.deployments

fail_run-IsApproved :
    (envs : List EnvironmentProfile) (d : Detail) (run : DeploymentRun)
    → IsApproved envs (fail_run d run)
fail_run-IsApproved envs d run = refl

may_go :
    (env : Option EnvironmentProfile) (by : Option Text)
    → must_wait env by ≡ false
    → (wants_approval env && not (is_truthy by)) ≡ false
may_go none by h = refl
may_go (some env) by h = h

verified_run-IsApproved :
    (now : ℕ) (dest : Text) (by : Option Text) (b : Bool) (envs : List EnvironmentProfile)
    (run : DeploymentRun)
    → must_wait (profile run.environment envs) by ≡ false
    → IsApproved envs (verified_run now dest by b run)
verified_run-IsApproved now dest by true envs run h = may_go (profile run.environment envs) by h
verified_run-IsApproved now dest by false envs run h = refl

install_result-IsApproved :
    (now : ℕ) (dest : Text) (by : Option Text) (answer : Option Bool)
    (envs : List EnvironmentProfile) (run : DeploymentRun)
    → must_wait (profile run.environment envs) by ≡ false
    → IsApproved envs (install_result now dest by answer run)
install_result-IsApproved now dest by none envs run h = refl
install_result-IsApproved now dest by (some b) envs run h =
    verified_run-IsApproved now dest by b envs run h

module _ (host : Host) where
  install_artifact-IsApproved :
      (now : ℕ) (path : Option Text) (dest : Text) (by : Option Text)
      (envs : List EnvironmentProfile) (run : DeploymentRun)
      → must_wait (profile run.environment envs) by ≡ false
      → IsApproved envs (install_artifact host now path dest by run)
  install_artifact-IsApproved now none dest by envs run h = refl
  install_artifact-IsApproved now (some path) dest by envs run h =
      install_result-IsApproved now dest by (host.install path dest) envs run h

  pub deploy_run-IsApproved :
      (id now : ℕ) (release : ReleaseVersion) (environment : Text) (pipeline : Option ℕ)
      (by : Option Text) (s : DevopsDb)
      → IsApproved s.environments (deploy_run host id now release environment pipeline by s)
  unfolding deploy_run
  deploy_run-IsApproved id now release environment pipeline by s =
      elim (Bool-cases (must_wait (profile environment s.environments) by)) [
        | inl e ↦ rw e refl
        | inr e ↦ rw e (install_artifact-IsApproved now _ _ by s.environments _ e)
      ]

  install_artifact-environment :
      (now : ℕ) (path : Option Text) (dest : Text) (by : Option Text) (run : DeploymentRun)
      → (install_artifact host now path dest by run).environment ≡ run.environment
  install_artifact-environment now none dest by run = refl
  install_artifact-environment now (some path) dest by run = answered (host.install path dest)
    where
      answered :
          (a : Option Bool) → (install_result now dest by a run).environment ≡ run.environment
      answered none = refl
      answered (some b) = refl

  pub deploy_run-environment :
      (id now : ℕ) (release : ReleaseVersion) (environment : Text) (pipeline : Option ℕ)
      (by : Option Text) (s : DevopsDb)
      → (deploy_run host id now release environment pipeline by s).environment ≡ environment
  unfolding deploy_run
  deploy_run-environment id now release environment pipeline by s =
      elim (Bool-cases (must_wait (profile environment s.environments) by)) [
        | inl e ↦ rw e refl
        | inr e ↦ rw e (install_artifact-environment now _ _ by _)
      ]

  pub deploy-Gated :
      (id now : ℕ) (release : ReleaseVersion) (environment : Text) (pipeline : Option ℕ)
      (by : Option Text) (s : DevopsDb)
      → Gated s
      → Gated (deploy host id now release environment pipeline by s).1
  unfolding deploy
  deploy-Gated id now release environment pipeline by s h =
      All-append (IsApproved s.environments) s.deployments _ h
        (deploy_run-IsApproved id now release environment pipeline by s, tt)

  write_deployment-Gated :
      (id : ℕ) (f : DeploymentRun → DeploymentRun) (s : DevopsDb)
      → ((envs : List EnvironmentProfile) (d : DeploymentRun) → IsApproved envs (f d))
      → Gated s
      → Gated (write_deployment id f s)
  write_deployment-Gated id f s k h =
      modify-All deployment_id (IsApproved s.environments) id f s.deployments
        (λ d e g. k s.environments d) h

  pub approve_production-Gated :
      (id now run_id : ℕ) (by : Text) (s : DevopsDb)
      → Gated s
      → Gated (approve_production host id now run_id by s).1
  approve_production-Gated id now run_id by s h =
      elim (approve_production_cases host id now run_id by s) [
        | inl (e, refused) ↦ rw refused h
        | inr a ↦ rw (approve_production_lem host id now run_id by s a) (
            write_deployment-Gated a.run.id supersede
              (deploy host id now a.release a.run.environment a.run.pipeline_run_id (some by) s).1
              (λ envs d. refl)
              (deploy-Gated id now a.release a.run.environment a.run.pipeline_run_id (some by) s h))
      ]

  roll_back_current-Gated :
      (c : Option DeploymentRun) (s : DevopsDb) → Gated s → Gated (roll_back_current c s)
  roll_back_current-Gated none s h = h
  roll_back_current-Gated (some c) s h = write_deployment-Gated c.id roll_back s (λ envs d. refl) h

  pub rollback-Gated :
      (history_id id now : ℕ) (environment : Text) (to : ℕ) (reason : Option Text) (actor : Text)
      (s : DevopsDb)
      → Gated s
      → Gated (rollback host history_id id now environment to reason actor s).1
  rollback-Gated history_id id now environment to reason actor s h =
      elim (Option-cases (find release_id to s.releases)) [
        | inl e ↦ rw (rollback_unknown host history_id id now environment to reason actor s e) h
        | inr (release, e) ↦
            rw (rollback_lem host history_id id now environment to reason actor s release e) (
              let t = logged host history_id id now environment to reason actor s release in
              roll_back_current-Gated (newest (live_in environment) s.deployments)
                (deploy host id now release environment none (some actor) t).1
                (deploy-Gated id now release environment none (some actor) t h))
      ]
