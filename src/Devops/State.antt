-- ===== src/Devops/State.antt =====
-- backend/app/domain/devops_enums.py and backend/app/models/devops.py: the tables of the delivery
-- services. Measured durations, display texts and JSON blobs that no operation reads are left out.
use wes.Base.{
  ℕ, Bool, true, false, Option, none, some, List, [], ◌∷◌, Text, is_nonempty, text_eq, first, find,
}

pub data PipelineStatus : Type 0 where
  queued running passed failed awaiting_production cancelled : PipelineStatus

pub data StageStatus : Type 0 where
  pending running passed failed skipped : StageStatus

pub data BuildStatus : Type 0 where
  pending building success failed : BuildStatus

pub data DeploymentStatus : Type 0 where
  pending deploying deployed failed rolled_back awaiting_approval : DeploymentStatus

pub data DeployStrategy : Type 0 where
  standard blue_green rolling : DeployStrategy

pub data ReleaseStatus : Type 0 where
  draft candidate released rolled_back : ReleaseStatus

pub data ArtifactKind : Type 0 where
  tarball docker_image package_kind : ArtifactKind

pub data IncidentSeverity : Type 0 where
  info warning critical : IncidentSeverity

pub data RollbackStatus : Type 0 where
  pending completed failed : RollbackStatus

-- `Environment.PRODUCTION.value` and `Environment.STAGING.value`
abbrev pub production : Text
production = 112 ∷ 114 ∷ 111 ∷ 100 ∷ 117 ∷ 99 ∷ 116 ∷ 105 ∷ 111 ∷ 110 ∷ []

abbrev pub staging : Text
staging = 115 ∷ 116 ∷ 97 ∷ 103 ∷ 105 ∷ 110 ∷ 103 ∷ []

pub record EnvironmentProfile : Type 0 where
  pub name : Text
  pub requires_approval : Bool
  pub strategy : DeployStrategy

pub record DeploymentTarget : Type 0 where
  pub id : ℕ
  pub environment : Text

pub record ReleaseVersion : Type 0 where
  pub id : ℕ
  pub version : Text
  pub task_id : Option ℕ
  pub pipeline_run_id : Option ℕ
  pub status : ReleaseStatus
  pub created_by : Text

pub record DeploymentArtifact : Type 0 where
  pub id : ℕ
  pub release_version_id : Option ℕ
  pub build_run_id : Option ℕ
  pub kind : ArtifactKind
  pub path : Option Text

-- The texts of a deployment's `detail`.
pub data Detail : Type 0 where
  awaiting no_artifact raised verified unverified superseded : Detail

pub record DeploymentRun : Type 0 where
  pub id : ℕ
  pub pipeline_run_id : Option ℕ
  pub task_id : Option ℕ
  pub release_version_id : Option ℕ
  pub environment : Text
  pub target_id : Option ℕ
  pub strategy : DeployStrategy
  pub status : DeploymentStatus
  pub path : Option Text
  pub approved_by : Option Text
  pub approved_at : Option ℕ
  pub detail : Option Detail
  pub created_at : ℕ

pub record RollbackHistory : Type 0 where
  pub id : ℕ
  pub environment : Text
  pub deployment_run_id : Option ℕ
  pub from_release_id : Option ℕ
  pub to_release_id : ℕ
  pub status : RollbackStatus
  pub reason : Option Text
  pub actor : Text

pub data StageName : Type 0 where
  build unit_tests integration_tests security_scan docker_image artifact : StageName
  release_candidate staging_deploy monitoring rollback_ready production_approval : StageName
  production_deploy : StageName

pub record Stage : Type 0 where
  pub stage : StageName
  pub status : StageStatus

-- The texts of a pipeline's `error`.
pub data PipelineError : Type 0 where
  build_failed tests_failed security_failed staging_failed exception : PipelineError

pub record PipelineRun : Type 0 where
  pub id : ℕ
  pub number : ℕ
  pub task_id : ℕ
  pub status : PipelineStatus
  pub environment_target : Text
  pub current_stage : Option StageName
  pub stages : List Stage
  pub triggered_by : Text
  pub release_version_id : Option ℕ
  pub error : Option PipelineError
  pub started_at : ℕ
  pub completed_at : Option ℕ

pub record BuildRun : Type 0 where
  pub id : ℕ
  pub task_id : ℕ
  pub pipeline_run_id : ℕ
  pub status : BuildStatus

pub record IncidentReport : Type 0 where
  pub title : PipelineError
  pub severity : IncidentSeverity

-- backend/app/domain/development_enums.py
pub data DevTaskStatus : Type 0 where
  queued planning implementing testing reviewing documenting pr_ready approved : DevTaskStatus
  rejected changes_requested failed completed : DevTaskStatus

-- Of a development task, what the pipeline reads.
pub record DevelopmentTask : Type 0 where
  pub id : ℕ
  pub status : DevTaskStatus

pub record DevopsDb : Type 0 where
  pub tasks : List DevelopmentTask
  pub environments : List EnvironmentProfile
  pub targets : List DeploymentTarget
  pub releases : List ReleaseVersion
  pub artifacts : List DeploymentArtifact
  pub deployments : List DeploymentRun
  pub rollbacks : List RollbackHistory
  pub pipelines : List PipelineRun
  pub builds : List BuildRun
  pub incidents : List IncidentReport

abbrev pub release_id : ReleaseVersion → ℕ
release_id r = r.id

abbrev pub deployment_id : DeploymentRun → ℕ
deployment_id d = d.id

abbrev pub rollback_id : RollbackHistory → ℕ
rollback_id h = h.id

abbrev pub pipeline_id : PipelineRun → ℕ
pipeline_id p = p.id

abbrev pub artifact_id : DeploymentArtifact → ℕ
artifact_id a = a.id

abbrev pub task_id : DevelopmentTask → ℕ
task_id t = t.id

abbrev pub is_approved : DevTaskStatus → Bool
is_approved approved = true
is_approved _ = false

abbrev pub is_deployed : DeploymentStatus → Bool
is_deployed deployed = true
is_deployed _ = false

abbrev pub is_awaiting_approval : DeploymentStatus → Bool
is_awaiting_approval awaiting_approval = true
is_awaiting_approval _ = false

abbrev pub is_awaiting_production : PipelineStatus → Bool
is_awaiting_production awaiting_production = true
is_awaiting_production _ = false

-- Python's truth of `str | None`.
abbrev pub is_truthy : Option Text → Bool
is_truthy none = false
is_truthy (some t) = is_nonempty t

-- `db.get` with a key that may be null.
abbrev pub get_release : Option ℕ → DevopsDb → Option ReleaseVersion
get_release none s = none
get_release (some id) s = find release_id id s.releases

-- `get_by_name`
abbrev pub get_by_name : Text → DevopsDb → Option EnvironmentProfile
get_by_name name s = first (λ e. text_eq e.name name) s.environments

-- `target_for`
abbrev pub target_for : Text → DevopsDb → Option DeploymentTarget
target_for environment s = first (λ t. text_eq t.environment environment) s.targets
