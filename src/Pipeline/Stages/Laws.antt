-- ===== src/Pipeline/Stages/Laws.antt =====
-- What determineScanPodStageStatuses says of a scan pod.
use ocular.Prelude.{
  String, Bool, true, false, not, ◌&&◌, Option, none, some, List, [], ◌∷◌, ◌++◌, has_prefix,
  if◌then◌else◌, ◌≡◌, ◌≢◌, ◌↔◌, ◌⊎◌, refl, arith, eq_iff, ◌∙◌, inl,
}
use ocular.Prelude.Int.{ℤ}
use ocular.Kube.{ContainerStatus, Pod}
use ocular.Api.Pipeline.{StageStatus}
use ocular.Pipeline.Names.{
  sidecar_init_container_name, scan_container_prefix, upload_container_prefix,
}
use ocular.Pipeline.Stages.{
  nonzero, download_of, download_loop, stage_loop, scan_of, upload_of,
  determine_scan_pod_stage_statuses,
}

-- the container has terminated with exit code 0
abbrev pub succeeded : Option ℤ → Bool
succeeded none = false
succeeded (some code) = not (nonzero code)

-- every container of the stage has
abbrev pub all_succeeded : String → List ContainerStatus → Bool
all_succeeded prefix [] = true
all_succeeded prefix (cs ∷ css) =
    let rest = all_succeeded prefix css in
    if has_prefix cs.name prefix then succeeded cs.terminated && rest else rest

-- download may be over: it neither runs nor failed
abbrev pub passed : StageStatus → Bool
passed StageStatus.in_progress = false
passed StageStatus.failed = false
passed _ = true

stage_loop-completed :
    (prefix : String) (css : List ContainerStatus)
    → (stage_loop prefix css StageStatus.completed ≡ StageStatus.completed)
      ↔ (all_succeeded prefix css ≡ true)
unfolding stage_loop
stage_loop-completed prefix [] = (λ h. refl, λ h. refl)
stage_loop-completed prefix (cs ∷ css) = (
  λ h. ground (arith, (stage_loop-completed prefix css).0),
  λ h. ground (arith, (stage_loop-completed prefix css).1),
)

-- The scan stage is reported as completed exactly when the download is reported neither as in
-- progress nor as failed and every scanner container has terminated with exit code 0; what is
-- reported for the download is the code's own status, which takes exit code 0 for a failure.
pub scan-completed :
    (pod : Pod)
    → let stages = determine_scan_pod_stage_statuses pod in
      (stages.scan ≡ StageStatus.completed) ↔ (
        (passed stages.download
          && all_succeeded scan_container_prefix pod.status.container_statuses)
        ≡ true)
unfolding determine_scan_pod_stage_statuses scan_of
scan-completed pod =
    let d = download_loop pod.status.init_container_statuses StageStatus.unset in
    let l = stage_loop-completed scan_container_prefix pod.status.container_statuses in
    (λ h. ground (arith, l.0), λ h. ground (arith, l.1))

stage_loop-decides :
    (prefix : String) (css : List ContainerStatus) (s : StageStatus)
    → (stage_loop prefix css s ≡ s)
      ⊎ (stage_loop prefix css s ≡ StageStatus.in_progress)
      ⊎ (stage_loop prefix css s ≡ StageStatus.failed)
unfolding stage_loop
stage_loop-decides prefix [] s = inl refl
stage_loop-decides prefix (cs ∷ css) s = ground (arith, stage_loop-decides prefix css s)

-- The scan has not started exactly while the download runs, and is skipped exactly when the
-- download is reported as failed; the upload has not started exactly while the scan runs, is
-- skipped exactly when the scan is, and is never reported as completed.
pub stages-ordered :
    (pod : Pod)
    → let stages = determine_scan_pod_stage_statuses pod in
      ((stages.scan ≡ StageStatus.not_started) ↔ (stages.download ≡ StageStatus.in_progress))
      × ((stages.scan ≡ StageStatus.skipped) ↔ (stages.download ≡ StageStatus.failed))
      × ((stages.upload ≡ StageStatus.not_started) ↔ (stages.scan ≡ StageStatus.in_progress))
      × ((stages.upload ≡ StageStatus.skipped) ↔ (stages.scan ≡ StageStatus.skipped))
      × (stages.upload ≢ StageStatus.completed)
unfolding determine_scan_pod_stage_statuses scan_of upload_of
stages-ordered pod =
    let css = pod.status.container_statuses in
    let d = stage_loop-decides scan_container_prefix css StageStatus.completed in
    let u = stage_loop-decides upload_container_prefix css StageStatus.unset in
    (
      (ground arith, ground arith),
      (ground arith, ground arith),
      (ground arith, ground arith),
      (ground arith, ground arith),
      ground arith,
    )

download_loop-append :
    (xs : List ContainerStatus) (cs : ContainerStatus) (d : StageStatus)
    → cs.name ≢ sidecar_init_container_name
    → download_loop (xs ++ cs ∷ []) d ≡ download_of cs.terminated
unfolding download_loop
download_loop-append [] cs d h = ground (arith, eq_iff cs.name sidecar_init_container_name)
download_loop-append (x ∷ xs) cs d h = download_loop-append xs cs _ h

-- Where the downloader is the last init container and has terminated, the download is reported as
-- completed if its exit code is not 0 and as failed if it is 0; and the scan and the upload are
-- reported as skipped exactly if the exit code is 0.
pub download_exit_code-inverted :
    (pod : Pod) (xs : List ContainerStatus) (cs : ContainerStatus) (code : ℤ)
    → pod.status.init_container_statuses ≡ xs ++ cs ∷ []
    → cs.name ≢ sidecar_init_container_name
    → cs.terminated ≡ some code
    → let stages = determine_scan_pod_stage_statuses pod in
      (stages.download ≡ (if nonzero code then StageStatus.completed else StageStatus.failed))
      × ((stages.scan ≡ StageStatus.skipped) ↔ (nonzero code ≡ false))
      × ((stages.upload ≡ StageStatus.skipped) ↔ (nonzero code ≡ false))
download_exit_code-inverted pod xs cs code e n t =
    let d : (determine_scan_pod_stage_statuses pod).download
        ≡ (if nonzero code then StageStatus.completed else StageStatus.failed) =
      unfold determine_scan_pod_stage_statuses in
      rw e (download_loop-append xs cs StageStatus.unset n ∙ rw t) in
    let (_, scan, _, upload, _) = stages-ordered pod in
    (
      d,
      (λ h. ground (arith, scan.0 h), λ h. ground (arith, scan.1)),
      (λ h. ground (arith, upload.0 h, scan.0), λ h. ground (arith, upload.1, scan.1)),
    )
