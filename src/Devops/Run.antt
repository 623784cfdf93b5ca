-- ===== src/Devops/Run.antt =====
-- backend/app/services/devops_pipeline.py: `PipelineService.run`, stage by stage, and
-- `deploy_production`.
use wes.Base.{
  ℕ, ◌+◌, Bool, true, false, not, Option, none, some, is_some, [], ◌∷◌, ◌++◌, map, length,
  if◌then◌else◌, Text, Result, Action, ok, err, pure, gets, or_raise, raise_if, modify_state,
  is_nonempty, ◌>>=◌, ◌>>◌, not_found, validation, raised, find, modify,
}
use wes.Devops.State.{
  PipelineStatus, StageStatus, StageName, PipelineError, ReleaseVersion, DeploymentArtifact,
  PipelineRun, Stage, DevelopmentTask, DevopsDb, production, staging, release_id, pipeline_id,
  task_id, is_approved, is_deployed, is_awaiting_production, get_release,
}
use wes.Devops.Deploy.{Host, deploy, mark_released}
use wes.Devops.Pipeline.{
  World, Running, Verdict, on_db, add_stage, passed_if, add_incident, build, build_image, sec_ok,
  may_raise, link_artifact, set_release, set_current, failed_with, create_release,
}

-- What `_finish` is called with: an exception fails the pipeline.
abbrev pub verdict : Result Verdict → Verdict
verdict (ok v) = v
verdict (err _) = failed_with PipelineError.exception

-- `_finish`
abbrev pub finish : ℕ → Verdict → PipelineRun → PipelineRun
finish now v pipe = record pipe { status = v.final; error = v.error; completed_at = some now }

module _ (host : Host) (version_text : ℕ → Text) where
  module _ (w : World) (actor : Text) (now : ℕ) where
    -- Stages 9 to 11.
    abbrev pub monitor : Bool → Action Running Verdict
    monitor snapshot = do
      raise_if (not snapshot) raised
      add_stage StageName.monitoring StageStatus.passed
      add_stage StageName.rollback_ready StageStatus.passed
      add_stage StageName.production_approval StageStatus.pending
      modify_state (set_current StageName.production_approval)
      pure (record { final = PipelineStatus.awaiting_production; error = none })

    -- Stage 8.
    abbrev pub staged : Bool → Action Running Verdict
    staged deployed = do
      add_stage StageName.staging_deploy (passed_if deployed)
      (if deployed then monitor w.snapshot else pure (failed_with PipelineError.staging_failed))

    abbrev pub stage_release : ReleaseVersion → Action Running Verdict
    stage_release release = do
      pipe ← gets (λ s. s.pipe)
      run ← on_db (deploy host w.deploy_id now release staging (some pipe.id) none)
      staged (is_deployed run.status)

    -- Stages 6 and 7.
    abbrev pub cut_release : DeploymentArtifact → Option DeploymentArtifact → Action Running Verdict
    cut_release artifact image = do
      pipe ← gets (λ s. s.pipe)
      add_stage StageName.docker_image
          (if is_some image then StageStatus.passed else StageStatus.skipped)
      add_stage StageName.artifact StageStatus.passed
      release ← on_db (create_release version_text w actor pipe.task_id pipe.id)
      on_db (modify_state (link_artifact release.id (some artifact)))
      on_db (modify_state (link_artifact release.id image))
      modify_state (set_release release.id)
      add_stage StageName.release_candidate StageStatus.passed
      stage_release release

    -- Stage 5.
    abbrev pub package_image : Bool → DeploymentArtifact → Action Running Verdict
    package_image built artifact = do
      image ← on_db (build_image w built)
      cut_release artifact image

    -- Stage 4.
    abbrev pub scan : DeploymentArtifact → Bool → Action Running Verdict
    scan artifact secure = do
      add_stage StageName.security_scan (passed_if secure)
      (if secure
          then package_image w.image_built artifact
          else pure (failed_with PipelineError.security_failed))

    abbrev fail_tests : Action Running Verdict
    fail_tests = do
      add_incident PipelineError.tests_failed
      pure (failed_with PipelineError.tests_failed)

    -- Stages 2 and 3, for what pytest answered.
    abbrev pub test : DeploymentArtifact → Option Bool → Action Running Verdict
    test artifact answer = do
      unit_ok ← may_raise answer
      add_stage StageName.unit_tests (passed_if unit_ok)
      add_stage StageName.integration_tests
          (if unit_ok then StageStatus.passed else StageStatus.skipped)
      (if unit_ok then scan artifact (sec_ok w.critical) else fail_tests)

    abbrev fail_build : Action Running Verdict
    fail_build = do
      add_stage StageName.build StageStatus.failed
      add_incident PipelineError.build_failed
      pure (failed_with PipelineError.build_failed)

    abbrev pub after_build : Option DeploymentArtifact → Action Running Verdict
    after_build none = fail_build
    after_build (some artifact) = do
      add_stage StageName.build StageStatus.passed
      test artifact w.tests

    -- Stage 1.
    abbrev pub build_stage : Bool → Option Bool → Option Text → Action Running Verdict
    build_stage sandbox_exists compiled packaged = do
      artifact ← build w sandbox_exists compiled packaged
      after_build artifact

    -- The body of the `try`.
    abbrev pub stages : Action Running Verdict
    stages = do
      modify_state (set_current StageName.build)
      build_stage w.sandbox_exists w.compiled w.packaged

    abbrev pub new_pipeline : ℕ → Text → Option Text → DevelopmentTask → DevopsDb → PipelineRun
    new_pipeline id environment triggered_by task s = record {
      id = id;
      number = length s.pipelines + 1;
      task_id = task.id;
      status = PipelineStatus.running;
      environment_target = environment;
      current_stage = none;
      stages = [];
      triggered_by = (elim triggered_by [
        | none ↦ actor
        | some t ↦ if is_nonempty t then t else actor
      ]);
      release_version_id = none;
      error = none;
      started_at = now;
      completed_at = none;
    }

    unfoldable pub run_stages : PipelineRun → Action DevopsDb PipelineRun
    run_stages pipe s =
        let (r, t) = stages (record { db = s; pipe = pipe }) in
        let final = finish now (verdict r) t.pipe in
        (ok final, record (t.db) { pipelines = t.db.pipelines ++ final ∷ [] })

    unfoldable pub run : ℕ → ℕ → Text → Option Text → Action DevopsDb PipelineRun
    run id task environment triggered_by = do
      loaded ← (do or_raise (← gets (λ s. find task_id task s.tasks)) not_found)
      raise_if (not (is_approved loaded.status)) validation
      pipe ← gets (new_pipeline id environment triggered_by loaded)
      run_stages pipe

  abbrev is_approval : StageName → Bool
  is_approval StageName.production_approval = true
  is_approval _ = false

  abbrev pub decide_stage : Bool → Stage → Stage
  decide_stage deployed s =
      if is_approval s.stage then record s { status = passed_if deployed } else s

  abbrev pub close_pipeline : Bool → PipelineRun → PipelineRun
  close_pipeline deployed pipe = record pipe {
    stages =
        map (decide_stage deployed) pipe.stages
        ++ record { stage = StageName.production_deploy; status = passed_if deployed } ∷ [];
    status = if deployed then PipelineStatus.passed else PipelineStatus.failed;
    current_stage = some StageName.production_deploy;
  }

  abbrev pub release_if : Bool → ReleaseVersion → DevopsDb → DevopsDb
  release_if deployed release s =
      if deployed
      then record s { releases = modify release_id release.id mark_released s.releases }
      else s

  unfoldable pub deploy_production : ℕ → ℕ → ℕ → Text → Action DevopsDb PipelineRun
  deploy_production deploy_id now id approved_by = do
    pipe ← (do or_raise (← gets (λ s. find pipeline_id id s.pipelines)) not_found)
    raise_if (not (is_awaiting_production pipe.status)) validation
    release ← (do or_raise (← gets (get_release pipe.release_version_id)) validation)
    run ← deploy host deploy_id now release production (some pipe.id) (some approved_by)
    modify_state (λ s. record s {
      pipelines = modify pipeline_id id (close_pipeline (is_deployed run.status)) s.pipelines;
    })
    modify_state (release_if (is_deployed run.status) release)
    pure (close_pipeline (is_deployed run.status) pipe)
