-- ===== src/Devops/Pipeline.antt =====
-- backend/app/services/devops_pipeline.py, with the build of backend/app/services/devops_build.py
-- and the release of backend/app/services/devops_release.py. What the tools answer is a `World`; the
-- row of the running pipeline is written back when the run finishes, and nothing reads it before.
-- The release notes and the health tables are left out.
use wes.Base.{
  ℕ, ◌+◌, Bool, true, false, Option, none, some, List, [], ◌∷◌, ◌++◌, length, if◌then◌else◌, ◌==◌,
  Text, Action, ok, err, or_raise, modify_state, raised, modify,
}
use wes.Devops.State.{
  PipelineStatus, StageStatus, BuildStatus, StageName, PipelineError, ReleaseStatus, ArtifactKind,
  IncidentSeverity, ReleaseVersion, DeploymentArtifact, PipelineRun, DevopsDb, artifact_id,
}

-- `_STAGES`
abbrev pub stage_names : List StageName
stage_names =
    StageName.build ∷ StageName.unit_tests ∷ StageName.integration_tests ∷ StageName.security_scan
    ∷ StageName.docker_image ∷ StageName.artifact ∷ StageName.release_candidate
    ∷ StageName.staging_deploy ∷ StageName.monitoring ∷ StageName.rollback_ready
    ∷ StageName.production_approval ∷ []

-- One run's answers of the tools, and the identifiers of the rows it adds. Where the call can raise,
-- `none` is a raise; `critical` is the count of the newest quality gate, if the task has one.
pub record World : Type 0 where
  pub sandbox_exists : Bool
  pub compiled : Option Bool
  pub packaged : Option Text
  pub tests : Option Bool
  pub critical : Option ℕ
  pub image_built : Bool
  pub snapshot : Bool
  pub build_id : ℕ
  pub artifact_id : ℕ
  pub image_id : ℕ
  pub release_id : ℕ
  pub deploy_id : ℕ

-- The session and the loaded pipeline during a run; the pipeline's stages are the local list.
pub record Running : Type 0 where
  pub db : DevopsDb
  pub pipe : PipelineRun

-- What a run passes to `_finish`.
pub record Verdict : Type 0 where
  pub final : PipelineStatus
  pub error : Option PipelineError

abbrev pub on_db : {A : Type 0} → Action DevopsDb A → Action Running A
on_db m s = let (r, db) = m s.db in (r, record s { db = db })

-- `_stage`
abbrev pub add_stage : StageName → StageStatus → Action Running (Unit {0})
add_stage name status = modify_state (λ s. record s {
  pipe = record (s.pipe) {
    stages = s.pipe.stages ++ record { stage = name; status = status } ∷ [];
  };
})

abbrev pub passed_if : Bool → StageStatus
passed_if b = if b then StageStatus.passed else StageStatus.failed

abbrev pub add_incident : PipelineError → Action Running (Unit {0})
add_incident title = on_db (
    modify_state (λ s. record s {
      incidents =
          s.incidents ++ record { title = title; severity = IncidentSeverity.critical } ∷ [];
    }))

abbrev pub add_artifact : DeploymentArtifact → DevopsDb → DevopsDb
add_artifact a s = record s { artifacts = s.artifacts ++ a ∷ [] }

abbrev add_build : World → PipelineRun → BuildStatus → DevopsDb → DevopsDb
add_build w pipe status s = record s {
  builds =
      s.builds
      ++ record {
        id = w.build_id;
        task_id = pipe.task_id;
        pipeline_run_id = pipe.id;
        status = status;
      }
        ∷ [];
}

-- `ArtifactService.package`
abbrev pub package_artifact : World → Text → DeploymentArtifact
package_artifact w path = record {
  id = w.artifact_id;
  release_version_id = none;
  build_run_id = some w.build_id;
  kind = ArtifactKind.tarball;
  path = some path;
}

abbrev end_build : World → BuildStatus → Running → Running
end_build w status s = record s { db = add_build w s.pipe status s.db }

-- `BuildService.build`, for what the tools answer: the artifact of a build that succeeded, none if it
-- failed.
abbrev pub build :
    World → Bool → Option Bool → Option Text → Action Running (Option DeploymentArtifact)
build w false compiled packaged s = (ok none, end_build w BuildStatus.failed s)
build w true none packaged s = (err raised, end_build w BuildStatus.building s)
build w true (some false) packaged s = (ok none, end_build w BuildStatus.failed s)
build w true (some true) none s = (err raised, end_build w BuildStatus.building s)
build w true (some true) (some path) s =
    let a = package_artifact w path in
    let t = end_build w BuildStatus.success s in
    (ok (some a), record t { db = add_artifact a t.db })

abbrev pub image_artifact : World → DeploymentArtifact
image_artifact w = record {
  id = w.image_id;
  release_version_id = none;
  build_run_id = none;
  kind = ArtifactKind.docker_image;
  path = none;
}

-- `ArtifactService.build_image`
abbrev pub build_image : World → Bool → Action DevopsDb (Option DeploymentArtifact)
build_image w false s = (ok none, s)
build_image w true s = (ok (some (image_artifact w)), add_artifact (image_artifact w) s)

abbrev pub sec_ok : Option ℕ → Bool
sec_ok none = true
sec_ok (some critical_count) = critical_count == 0

abbrev pub may_raise : {A : Type 0} → Option A → Action Running A
may_raise answer = or_raise answer raised

abbrev pub link_artifact : ℕ → Option DeploymentArtifact → DevopsDb → DevopsDb
link_artifact id none s = s
link_artifact id (some a) s = record s {
  artifacts = modify artifact_id a.id (λ b. record b { release_version_id = some id }) s.artifacts;
}

abbrev pub set_release : ℕ → Running → Running
set_release id s = record s { pipe = record (s.pipe) { release_version_id = some id } }

abbrev pub set_current : StageName → Running → Running
set_current name s = record s { pipe = record (s.pipe) { current_stage = some name } }

abbrev pub failed_with : PipelineError → Verdict
failed_with e = record { final = PipelineStatus.failed; error = some e }

-- `ReleaseService.create`; `version_text n` is the text of the n-th version.
abbrev pub create_release : (ℕ → Text) → World → Text → ℕ → ℕ → Action DevopsDb ReleaseVersion
create_release version_text w actor task pipeline s =
    (ok release, record s { releases = s.releases ++ release ∷ [] })
  where
    release : ReleaseVersion
    release = record {
      id = w.release_id;
      version = version_text (length s.releases + 1);
      task_id = some task;
      pipeline_run_id = some pipeline;
      status = ReleaseStatus.candidate;
      created_by = actor;
    }
