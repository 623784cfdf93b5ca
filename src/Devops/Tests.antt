-- ===== src/Devops/Tests.antt =====
-- The theorems on deployments and pipelines at a concrete delivery.
use wes.Base.{
  ℕ, ◌≡◌, refl, true, false, ◌&&◌, none, some, [], ◌∷◌, map, any, length, take, keep, ◌==◌, find,
  ok, err, validation, Text,
}
use wes.Devops.State.{
  DevTaskStatus, DeployStrategy, ReleaseStatus, DeploymentStatus, RollbackStatus, ReleaseVersion,
  DeploymentRun, RollbackHistory, PipelineRun, DevopsDb, production, staging, deployment_id,
  is_awaiting_production,
}
use wes.Devops.Deploy.{Host, deploy, deploy_run, approve_production, rollback, roll_back}
use wes.Devops.Pipeline.{World, stage_names}
use wes.Devops.Run.{run, run_stages, deploy_production}
use wes.Devops.Approval.{Gated}
use wes.Devops.Gate.{
  run_pipeline, release_production, perform_all, perform_all-Gated, in_production,
  run_spares_production,
}
use wes.Devops.Once.{approve_once, rollback_abandons, deploy_production_once}
use wes.Devops.Trail.{stage_name, stage_failed}
use wes.Devops.Recorded.{run_stage_names}

abbrev host : Host
host = record { exists = λ p. true; dest = λ e v. v; install = λ p d. some true }

abbrev version_text : ℕ → Text
version_text n = n ∷ []

-- Every tool answers well; the docker builds are off.
abbrev good : World
good = record {
  sandbox_exists = true;
  compiled = some true;
  packaged = some (47 ∷ []);
  tests = some true;
  critical = some 0;
  image_built = false;
  snapshot = true;
  build_id = 1;
  artifact_id = 2;
  image_id = 3;
  release_id = 4;
  deploy_id = 5;
}

abbrev start : DevopsDb
start = record {
  tasks = record { id = 1; status = DevTaskStatus.approved } ∷ [];
  environments =
      record { name = staging; requires_approval = false; strategy = DeployStrategy.standard }
      ∷ record { name = production; requires_approval = true; strategy = DeployStrategy.blue_green }
      ∷ [];
  targets = [];
  releases = [];
  artifacts = [];
  deployments = [];
  rollbacks = [];
  pipelines = [];
  builds = [];
  incidents = [];
}

perform_all-Gated_example : Gated (
    perform_all host version_text
      (run_pipeline good [] 10 7 1 staging none ∷ release_production 8 20 7 (65 ∷ []) ∷ [])
      start)
perform_all-Gated_example =
    perform_all-Gated host version_text
      (run_pipeline good [] 10 7 1 staging none ∷ release_production 8 20 7 (65 ∷ []) ∷ []) start tt

run_spares_production_example :
    keep in_production (run host version_text good [] 10 7 1 staging none start).1.deployments ≡ []
run_spares_production_example =
    run_spares_production host version_text good [] 10 7 1 staging none start

run_stage_names_example :
    (p : PipelineRun) × ((run host version_text good [] 10 7 1 staging none start).0 ≡ ok p)
    × (map stage_name p.stages ≡ take (length p.stages) stage_names)
    × (is_awaiting_production p.status ≡ (length p.stages == 11))
    × ((is_awaiting_production p.status && any stage_failed p.stages) ≡ false)
run_stage_names_example =
    run_stage_names host version_text good [] 10 7 1 staging none start
      (record { id = 1; status = DevTaskStatus.approved }) refl refl

-- After the run, the pipeline waits; the first production deployment goes through.
abbrev piped : DevopsDb
piped = (run host version_text good [] 10 7 1 staging none start).1

deploy_production_once_example :
    let s' = (deploy_production host version_text 8 20 7 (65 ∷ []) piped).1 in
    deploy_production host version_text 9 30 7 (66 ∷ []) s' ≡ (err validation, s')
unfolding deploy_production run run_stages deploy deploy_run
deploy_production_once_example =
    deploy_production_once host version_text 8 20 7 (65 ∷ []) 9 30 (66 ∷ []) piped refl

abbrev old_release : ReleaseVersion
old_release = record {
  id = 1;
  version = 1 ∷ [];
  task_id = none;
  pipeline_run_id = none;
  status = ReleaseStatus.released;
  created_by = [];
}

abbrev deployment : ℕ → DeploymentStatus → DeploymentRun
deployment id status = record {
  id = id;
  pipeline_run_id = none;
  task_id = none;
  release_version_id = some 1;
  environment = production;
  target_id = none;
  strategy = DeployStrategy.standard;
  status = status;
  path = none;
  approved_by = some (65 ∷ []);
  approved_at = none;
  detail = none;
  created_at = 1;
}

abbrev stocked : DeploymentStatus → DevopsDb
stocked status = record start {
  releases = old_release ∷ [];
  deployments = deployment 2 status ∷ [];
}

approve_once_example :
    let s' =
      (approve_production host 5 10 2 (65 ∷ []) (stocked DeploymentStatus.awaiting_approval)).1 in
    approve_production host 6 20 2 (65 ∷ []) s' ≡ (err validation, s')
unfolding approve_production deploy
approve_once_example =
    approve_once host 5 10 2 (65 ∷ []) 6 20 (65 ∷ []) (stocked DeploymentStatus.awaiting_approval)
      refl

rollback_abandons_example :
    let (r, s') =
      rollback host 9 5 10 production 1 none (65 ∷ []) (stocked DeploymentStatus.deployed) in
    ((h : RollbackHistory) × (r ≡ ok h) × (h.status ≡ RollbackStatus.failed))
    × (find deployment_id 2 s'.deployments
        ≡ some (roll_back (deployment 2 DeploymentStatus.deployed)))
rollback_abandons_example =
    rollback_abandons host 9 5 10 production 1 none (65 ∷ []) (stocked DeploymentStatus.deployed)
      old_release (deployment 2 DeploymentStatus.deployed) refl refl refl refl
