-- ===== src/Devops/Deploy.antt =====
-- backend/app/services/devops_deploy.py: deployment, approval and rollback. `id` and `history_id`
-- are the fresh identifiers of the rows that the call adds, `now` the time of the call.
use mathlib.Core.Option
use wes.Base.{
  ℕ, Bool, true, false, not, ◌&&◌, Option, none, some, List, [], ◌∷◌, ◌++◌, if◌then◌else◌, ◌==◌,
  ltb, Text, text_eq, Action, ok, pure, gets, or_raise, raise_if, modify_state, ◌>>=◌, ◌>>◌,
  not_found, validation, raised, first, find, modify,
}
use wes.Devops.State.{
  DeploymentStatus, DeployStrategy, ReleaseStatus, ArtifactKind, RollbackStatus, Detail,
  EnvironmentProfile, ReleaseVersion, DeploymentArtifact, DeploymentRun, DeploymentTarget,
  RollbackHistory, DevopsDb, production, release_id, deployment_id, rollback_id, is_deployed,
  is_awaiting_approval, is_truthy, get_by_name, get_release, target_for,
}

-- What the service reads of the machine: whether a path exists, where the deployments of an
-- environment go, and what extracting an artifact there and verifying it gives, `none` where either
-- raises.
pub record Host : Type 0 where
  pub exists : Text → Bool
  pub dest : Text → Text → Text
  pub install : Text → Text → Option Bool

abbrev is_tarball : ArtifactKind → Bool
is_tarball ArtifactKind.tarball = true
is_tarball _ = false

-- `column == value`, false on NULL.
abbrev pub holds_id : ℕ → Option ℕ → Bool
holds_id id none = false
holds_id id (some r) = r == id

-- `_artifact_for`
abbrev pub artifact_for : ReleaseVersion → DevopsDb → Option DeploymentArtifact
artifact_for release s =
    first (λ a. holds_id release.id a.release_version_id && is_tarball a.kind) s.artifacts

abbrev strategy_of : Option EnvironmentProfile → DeployStrategy
strategy_of none = DeployStrategy.standard
strategy_of (some env) = env.strategy

abbrev target_id_of : Option DeploymentTarget → Option ℕ
target_id_of none = none
target_id_of (some t) = some t.id

abbrev new_run : ℕ → ℕ → ReleaseVersion → Text → Option ℕ → DevopsDb → DeploymentRun
new_run id now release environment pipeline s = record {
  id = id;
  pipeline_run_id = pipeline;
  task_id = release.task_id;
  release_version_id = some release.id;
  environment = environment;
  target_id = target_id_of (target_for environment s);
  strategy = strategy_of (get_by_name environment s);
  status = DeploymentStatus.deploying;
  path = none;
  approved_by = none;
  approved_at = none;
  detail = none;
  created_at = now;
}

-- The environment wants an approval, and none was given.
abbrev pub must_wait : Option EnvironmentProfile → Option Text → Bool
must_wait none approved_by = false
must_wait (some env) approved_by = env.requires_approval && not (is_truthy approved_by)

abbrev pub fail_run : Detail → DeploymentRun → DeploymentRun
fail_run detail run = record run { status = DeploymentStatus.failed; detail = some detail }

abbrev pub verified_run : ℕ → Text → Option Text → Bool → DeploymentRun → DeploymentRun
verified_run now dest approved_by verified run = record run {
  status = if verified then DeploymentStatus.deployed else DeploymentStatus.failed;
  path = some dest;
  approved_by = approved_by;
  approved_at = if is_truthy approved_by then some now else none;
  detail = some (if verified then Detail.verified else Detail.unverified);
}

abbrev pub mark_released : ReleaseVersion → ReleaseVersion
mark_released r = record r { status = ReleaseStatus.released }

abbrev releases_after : DeploymentRun → ReleaseVersion → List ReleaseVersion → List ReleaseVersion
releases_after run release t =
    if is_deployed run.status && text_eq run.environment production
    then modify release_id release.id mark_released t
    else t

-- The deployment that carries out an approval takes the waiting one's place.
abbrev pub supersede : DeploymentRun → DeploymentRun
supersede run = record run {
  status = DeploymentStatus.rolled_back;
  detail = some Detail.superseded;
}

abbrev pub write_deployment : ℕ → (DeploymentRun → DeploymentRun) → DevopsDb → DevopsDb
write_deployment id f s = record s { deployments = modify deployment_id id f s.deployments }

abbrev pub roll_back : DeploymentRun → DeploymentRun
roll_back run = record run { status = DeploymentStatus.rolled_back }

abbrev later : DeploymentRun → Option DeploymentRun → DeploymentRun
later a none = a
later a (some b) = if ltb a.created_at b.created_at then b else a

-- The newest of the rows that pass; of rows of one time the first.
abbrev pub newest : (DeploymentRun → Bool) → List DeploymentRun → Option DeploymentRun
newest p [] = none
newest p (d ∷ t) = let rest = newest p t in if p d then some (later d rest) else rest

abbrev pub live_in : Text → DeploymentRun → Bool
live_in environment d = text_eq d.environment environment && is_deployed d.status

abbrev pub roll_back_current : Option DeploymentRun → DevopsDb → DevopsDb
roll_back_current none s = s
roll_back_current (some current) s = write_deployment current.id roll_back s

abbrev pub new_history :
    ℕ → Text → ReleaseVersion → Option Text → Text → Option DeploymentRun → RollbackHistory
new_history id environment to_release reason actor current = record {
  id = id;
  environment = environment;
  deployment_run_id = Option.map deployment_id current;
  from_release_id = elim current [ none ↦ none | some c ↦ c.release_version_id ];
  to_release_id = to_release.id;
  status = RollbackStatus.pending;
  reason = reason;
  actor = actor;
}

abbrev pub close_history : DeploymentRun → RollbackHistory → RollbackHistory
close_history run h = record h {
  status = if is_deployed run.status then RollbackStatus.completed else RollbackStatus.failed;
}

abbrev pub restore_release : ReleaseVersion → ReleaseVersion
restore_release r = if is_rolled_back r.status then mark_released r else r
  where
    is_rolled_back : ReleaseStatus → Bool
    is_rolled_back ReleaseStatus.rolled_back = true
    is_rolled_back _ = false

-- What the answer of the installation makes of the run.
abbrev pub install_result : ℕ → Text → Option Text → Option Bool → DeploymentRun → DeploymentRun
install_result now dest approved_by none run = fail_run Detail.raised run
install_result now dest approved_by (some verified) run =
    verified_run now dest approved_by verified run

module _ (host : Host) where
  abbrev deployable : Option DeploymentArtifact → Option Text
  deployable none = none
  deployable (some a) = elim a.path [
    | none ↦ none
    | some path ↦ if is_truthy (some path) && host.exists path then some path else none
  ]

  abbrev pub install_artifact : ℕ → Option Text → Text → Option Text → DeploymentRun → DeploymentRun
  install_artifact now none dest approved_by run = fail_run Detail.no_artifact run
  install_artifact now (some path) dest approved_by run =
      install_result now dest approved_by (host.install path dest) run

  -- The row that a deployment ends with.
  unfoldable pub deploy_run :
      ℕ → ℕ → ReleaseVersion → Text → Option ℕ → Option Text → DevopsDb → DeploymentRun
  deploy_run id now release environment pipeline approved_by s =
      let run = new_run id now release environment pipeline s in
      if must_wait (get_by_name environment s) approved_by
      then record run { status = DeploymentStatus.awaiting_approval; detail = some Detail.awaiting }
      else install_artifact now (deployable (artifact_for release s))
          (host.dest environment release.version) approved_by run

  unfoldable pub deploy :
      ℕ → ℕ → ReleaseVersion → Text → Option ℕ → Option Text → Action DevopsDb DeploymentRun
  deploy id now release environment pipeline approved_by s =
      let run = deploy_run id now release environment pipeline approved_by s in
      (
        ok run,
        record s {
          deployments = s.deployments ++ run ∷ [];
          releases = releases_after run release s.releases;
        },
      )

  unfoldable pub approve_production : ℕ → ℕ → ℕ → Text → Action DevopsDb DeploymentRun
  approve_production id now run_id approved_by = do
    run ← (do or_raise (← gets (λ s. find deployment_id run_id s.deployments)) not_found)
    raise_if (not (is_awaiting_approval run.status)) validation
    release ← (do or_raise (← gets (get_release run.release_version_id)) raised)
    approved ← deploy id now release run.environment run.pipeline_run_id (some approved_by)
    modify_state (write_deployment run.id supersede)
    pure approved

  unfoldable pub rollback :
      ℕ → ℕ → ℕ → Text → ℕ → Option Text → Text → Action DevopsDb RollbackHistory
  rollback history_id id now environment to_release_id reason actor = do
    to_release ← (do or_raise (← gets (λ s. find release_id to_release_id s.releases)) not_found)
    current ← gets (λ s. newest (live_in environment) s.deployments)
    history ← pure (new_history history_id environment to_release reason actor current)
    modify_state (λ s. record s { rollbacks = s.rollbacks ++ history ∷ [] })
    run ← deploy id now to_release environment none (some actor)
    modify_state (roll_back_current current)
    modify_state (λ s. record s {
      rollbacks = modify rollback_id history_id (close_history run) s.rollbacks;
    })
    modify_state
        (λ s. record s { releases = modify release_id to_release_id restore_release s.releases })
    pure (close_history run history)
