-- ===== src/Devops/Stages.antt =====
-- What a run of the pipeline leaves true of the deployments, through all its stages
-- (backend/app/services/devops_pipeline.py).
use wes.Base.{ℕ, Bool, true, false, Option, none, some, List, [], ◌∷◌, ◌++◌, Text}
use wes.Devops.State.{
  EnvironmentProfile, ReleaseVersion, DeploymentArtifact, DeploymentRun, DevopsDb, staging,
  is_deployed,
}
use wes.Devops.Deploy.{Host, deploy_run, deploy}
use wes.Devops.Pipeline.{package_artifact, image_artifact, add_artifact, World, Running, sec_ok}
use wes.Devops.Run.{
  monitor, staged, stage_release, cut_release, package_image, scan, test, build_stage, stages,
}

module _ (host : Host) (version_text : ℕ → Text) (w : World) (actor : Text) (now : ℕ)
    (P : List EnvironmentProfile → List DeploymentRun → Type 0)
    (kept : (release : ReleaseVersion) (pipeline : Option ℕ) (s : DevopsDb)
      → P s.environments s.deployments
      → P s.environments (
          s.deployments
          ++ deploy_run host w.deploy_id now release staging pipeline none s ∷ [])) where
  Holds : Running → Type 0
  Holds s = P s.db.environments s.db.deployments

  monitor-Holds :
      (b : Bool) (s : Running) → Holds s → Holds (monitor host version_text w actor now b s).1
  unfolding Holds
  monitor-Holds false s h = h
  monitor-Holds true s h = h

  staged-Holds :
      (b : Bool) (s : Running) → Holds s → Holds (staged host version_text w actor now b s).1
  unfolding Holds
  staged-Holds false s h = h
  staged-Holds true s h = monitor-Holds w.snapshot _ h

  stage_release-Holds :
      (release : ReleaseVersion) (s : Running)
      → Holds s
      → Holds (stage_release host version_text w actor now release s).1
  unfolding Holds deploy
  stage_release-Holds release s h =
      staged-Holds
        (is_deployed
          (deploy_run host w.deploy_id now release staging (some s.pipe.id) none s.db).status)
        _ (kept release (some s.pipe.id) s.db h)

  cut_release-Holds :
      (a : DeploymentArtifact) (image : Option DeploymentArtifact) (s : Running)
      → Holds s
      → Holds (cut_release host version_text w actor now a image s).1
  unfolding Holds
  cut_release-Holds a none s h = stage_release-Holds _ _ h
  cut_release-Holds a (some image) s h = stage_release-Holds _ _ h

  package_image-Holds :
      (a : DeploymentArtifact) (built : Bool) (s : Running)
      → Holds s
      → Holds (package_image host version_text w actor now built a s).1
  unfolding Holds
  package_image-Holds a false s h = cut_release-Holds a none s h
  package_image-Holds a true s h =
      cut_release-Holds a (some (image_artifact w))
        (record s { db = add_artifact (image_artifact w) s.db }) h

  scan-Holds :
      (a : DeploymentArtifact) (b : Bool) (s : Running)
      → Holds s
      → Holds (scan host version_text w actor now a b s).1
  unfolding Holds
  scan-Holds a false s h = h
  scan-Holds a true s h = package_image-Holds a w.image_built _ h

  test-Holds :
      (a : DeploymentArtifact) (answer : Option Bool) (s : Running)
      → Holds s
      → Holds (test host version_text w actor now a answer s).1
  unfolding Holds
  test-Holds a none s h = h
  test-Holds a (some false) s h = h
  test-Holds a (some true) s h = scan-Holds a (sec_ok w.critical) _ h

  after_build-Holds :
      (sandbox : Bool) (compiled : Option Bool) (packaged : Option Text) (s : Running)
      → Holds s
      → Holds (build_stage host version_text w actor now sandbox compiled packaged s).1
  unfolding Holds
  after_build-Holds false compiled packaged s h = h
  after_build-Holds true none packaged s h = h
  after_build-Holds true (some false) packaged s h = h
  after_build-Holds true (some true) none s h = h
  after_build-Holds true (some true) (some path) s h =
      test-Holds (package_artifact w path) w.tests _ h

  pub stages-Holds :
      (s : Running)
      → P s.db.environments s.db.deployments
      → P
          (stages host version_text w actor now s).1.db.environments
          (stages host version_text w actor now s).1.db.deployments
  unfolding Holds
  stages-Holds s h = after_build-Holds w.sandbox_exists w.compiled w.packaged _ h
