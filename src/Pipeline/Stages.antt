-- ===== src/Pipeline/Stages.antt =====
-- determineScanPodStageStatuses of internal/controller/pipeline_controller.go: the status of each
-- stage, read off the container statuses of the scan pod.
pub mod Laws
use ocular.Prelude.{
  String, Bool, true, false, Option, none, some, List, [], ◌∷◌, ◌=ˢ◌, has_prefix, if◌then◌else◌,
}
use ocular.Prelude.Int.{ℤ, pos, negsuc}
use Prim.Native.Nat.{zero, suc}
use ocular.Kube.{ContainerStatus, Pod}
use ocular.Api.Pipeline.{StageStatus}
use ocular.Pipeline.Names.{
  sidecar_init_container_name, scan_container_prefix, upload_container_prefix,
}

-- ExitCode != 0
abbrev pub nonzero : ℤ → Bool
nonzero (pos n) = elim n [ zero ↦ false | suc k ↦ true ]
nonzero (negsuc n) = true

-- one init container's contribution to the download status
abbrev pub download_of : Option ℤ → StageStatus
download_of none = StageStatus.in_progress
download_of (some code) = if nonzero code then StageStatus.completed else StageStatus.failed

-- the loop over the init containers: the last one that is not the sidecar's decides
unfoldable pub download_loop : List ContainerStatus → StageStatus → StageStatus
download_loop [] download = download
download_loop (cs ∷ rest) download =
    download_loop rest
      (if cs.name =ˢ sidecar_init_container_name then download else download_of cs.terminated)

-- the loops over the containers with a prefix: the first that runs or failed decides
unfoldable pub stage_loop : String → List ContainerStatus → StageStatus → StageStatus
stage_loop prefix [] status = status
stage_loop prefix (cs ∷ rest) status =
    let next = stage_loop prefix rest status in
    if has_prefix cs.name prefix then decide cs.terminated next else next
  where
    decide : Option ℤ → StageStatus → StageStatus
    decide none next = StageStatus.in_progress
    decide (some code) next = if nonzero code then StageStatus.failed else next

unfoldable pub scan_of : StageStatus → List ContainerStatus → StageStatus
unfolding stage_loop
scan_of StageStatus.in_progress css = StageStatus.not_started
scan_of StageStatus.failed css = StageStatus.skipped
scan_of _ css = stage_loop scan_container_prefix css StageStatus.completed

unfoldable pub upload_of : StageStatus → List ContainerStatus → StageStatus
unfolding stage_loop
upload_of StageStatus.in_progress css = StageStatus.not_started
upload_of StageStatus.skipped css = StageStatus.skipped
upload_of _ css = stage_loop upload_container_prefix css StageStatus.unset

pub record Stages : Type 0 where
  pub download : StageStatus
  pub scan : StageStatus
  pub upload : StageStatus

unfoldable pub determine_scan_pod_stage_statuses : Pod → Stages
unfolding download_loop scan_of upload_of
determine_scan_pod_stage_statuses pod =
    let download = download_loop pod.status.init_container_statuses StageStatus.unset in
    let scan = scan_of download pod.status.container_statuses in
    let upload = upload_of scan pod.status.container_statuses in
    record { download = download; scan = scan; upload = upload }
