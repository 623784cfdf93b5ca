-- ===== src/Devops/Recorded.antt =====
-- The stages that a run of the pipeline records, stage by stage
-- (backend/app/services/devops_pipeline.py).
use wes.Base.{
  ℕ, ◌≡◌, refl, Bool, true, false, ◌&&◌, Option, none, some, List, [], ◌∷◌, map, any, length, take,
  Text, ◌==◌, Result, ok, find, arith,
}
use wes.Devops.State.{
  StageName, Stage, PipelineRun, DeploymentArtifact, DevelopmentTask, DevopsDb, task_id,
  is_approved, is_awaiting_production,
}
use wes.Devops.Deploy.{Host, deploy}
use wes.Devops.Pipeline.{
  World, Running, Verdict, stage_names, sec_ok, image_artifact, add_artifact, package_artifact,
}
use wes.Devops.Run.{
  verdict, finish, monitor, staged, cut_release, package_image, scan, test, build_stage, stages,
  new_pipeline, run_stages, run,
}
use wes.Devops.Trail.{
  Trail, Trail-next, Trail-stop, Trail-fail, Trail-done, Trail-fail_tests, Trail-from_empty,
  stage_name, stage_failed,
}

abbrev Leaves : List StageName → List Stage → Result Verdict × Running → Type 0
Leaves names l out = Trail names l out.0 out.1.pipe.stages

module _ (host : Host) (version_text : ℕ → Text) (w : World) (actor : Text) (now : ℕ) where
  abbrev from_monitoring : List StageName
  from_monitoring =
      StageName.monitoring ∷ StageName.rollback_ready ∷ StageName.production_approval ∷ []

  monitor-Leaves :
      (b : Bool) (s : Running)
      → Leaves from_monitoring s.pipe.stages (monitor host version_text w actor now b s)
  monitor-Leaves false s = Trail-stop _ _ _ _ refl
  monitor-Leaves true s =
      Trail-next _ _ _ _ _ _ refl
        (Trail-next _ _ _ _ _ _ refl (Trail-next _ _ _ _ _ _ refl (Trail-done _ _ refl)))

  staged-Leaves :
      (b : Bool) (s : Running)
      → Leaves
          (StageName.staging_deploy ∷ from_monitoring)
          s.pipe.stages
          (staged host version_text w actor now b s)
  staged-Leaves false s = Trail-fail _ _ _ _ _ _ refl
  staged-Leaves true s = Trail-next _ _ _ _ _ _ refl (monitor-Leaves w.snapshot _)

  cut_release-Leaves :
      (a : DeploymentArtifact) (image : Option DeploymentArtifact) (s : Running)
      → Leaves
          (StageName.docker_image ∷ StageName.artifact ∷ StageName.release_candidate
            ∷ StageName.staging_deploy ∷ from_monitoring)
          s.pipe.stages
          (cut_release host version_text w actor now a image s)
  unfolding deploy
  cut_release-Leaves a none s =
      Trail-next _ _ _ _ _ _ refl
        (Trail-next _ _ _ _ _ _ refl (Trail-next _ _ _ _ _ _ refl (staged-Leaves _ _)))
  cut_release-Leaves a (some image) s =
      Trail-next _ _ _ _ _ _ refl
        (Trail-next _ _ _ _ _ _ refl (Trail-next _ _ _ _ _ _ refl (staged-Leaves _ _)))

  abbrev from_docker : List StageName
  from_docker =
      StageName.docker_image ∷ StageName.artifact ∷ StageName.release_candidate
      ∷ StageName.staging_deploy ∷ from_monitoring

  package_image-Leaves :
      (a : DeploymentArtifact) (built : Bool) (s : Running)
      → Leaves from_docker s.pipe.stages (package_image host version_text w actor now built a s)
  package_image-Leaves a false s = cut_release-Leaves a none s
  package_image-Leaves a true s =
      cut_release-Leaves a (some (image_artifact w))
        (record s { db = add_artifact (image_artifact w) s.db })

  scan-Leaves :
      (a : DeploymentArtifact) (b : Bool) (s : Running)
      → Leaves
          (StageName.security_scan ∷ from_docker)
          s.pipe.stages
          (scan host version_text w actor now a b s)
  scan-Leaves a false s = Trail-fail _ _ _ _ _ _ refl
  scan-Leaves a true s = Trail-next _ _ _ _ _ _ refl (package_image-Leaves a w.image_built _)

  test-Leaves :
      (a : DeploymentArtifact) (answer : Option Bool) (s : Running)
      → Leaves
          (StageName.unit_tests ∷ StageName.integration_tests ∷ StageName.security_scan
            ∷ from_docker)
          s.pipe.stages
          (test host version_text w actor now a answer s)
  test-Leaves a none s = Trail-stop _ _ _ _ refl
  test-Leaves a (some false) s = Trail-fail_tests _ _ _ _ _ refl _
  test-Leaves a (some true) s =
      Trail-next _ _ _ _ _ _ refl
        (Trail-next _ _ _ _ _ _ refl (scan-Leaves a (sec_ok w.critical) _))

  build_stage-Leaves :
      (sandbox : Bool) (compiled : Option Bool) (packaged : Option Text) (s : Running)
      → Leaves stage_names s.pipe.stages
          (build_stage host version_text w actor now sandbox compiled packaged s)
  build_stage-Leaves false compiled packaged s = Trail-fail _ _ _ _ _ _ refl
  build_stage-Leaves true none packaged s = Trail-stop _ _ _ _ refl
  build_stage-Leaves true (some false) packaged s = Trail-fail _ _ _ _ _ _ refl
  build_stage-Leaves true (some true) none s = Trail-stop _ _ _ _ refl
  build_stage-Leaves true (some true) (some path) s =
      Trail-next _ _ _ _ _ _ refl (test-Leaves (package_artifact w path) w.tests _)

  stages-Leaves :
      (s : Running) → Leaves stage_names s.pipe.stages (stages host version_text w actor now s)
  stages-Leaves s = build_stage-Leaves w.sandbox_exists w.compiled w.packaged _

  run_approved :
      (id task : ℕ) (environment : Text) (by : Option Text) (s : DevopsDb) (t : DevelopmentTask)
      → find task_id task s.tasks ≡ some t
      → is_approved t.status ≡ true
      → run host version_text w actor now id task environment by s
        ≡ run_stages host version_text w actor now
            (new_pipeline host version_text w actor now id environment by t s)
            s
  unfolding run
  run_approved id task environment by s t found approved = ground arith

  -- The run of an approved task returns a pipeline whose stages are the listed ones in order, up to
  -- where it stopped; it waits for production if and only if all eleven were recorded, and then none
  -- of them failed.
  pub run_stage_names :
      (id task : ℕ) (environment : Text) (by : Option Text) (s : DevopsDb) (t : DevelopmentTask)
      → find task_id task s.tasks ≡ some t
      → is_approved t.status ≡ true
      → (p : PipelineRun) × ((run host version_text w actor now id task environment by s).0 ≡ ok p)
        × (map stage_name p.stages ≡ take (length p.stages) stage_names)
        × (is_awaiting_production p.status ≡ (length p.stages == 11))
        × ((is_awaiting_production p.status && any stage_failed p.stages) ≡ false)
  unfolding run_stages
  run_stage_names id task environment by s t found approved =
      let start : Running = record {
        db = s;
        pipe = new_pipeline host version_text w actor now id environment by t s;
      } in
      let out = stages host version_text w actor now start in
      let facts = Trail-from_empty stage_names out.0 out.1.pipe.stages (stages-Leaves start) in
      (
        finish now (verdict out.0) out.1.pipe,
        rw (run_approved id task environment by s t found approved) refl,
        facts.0,
        facts.1,
        facts.2,
      )
