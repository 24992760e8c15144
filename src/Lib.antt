-- ===== src/Lib.antt =====
-- Ocular: the controllers, webhooks and helpers that run code scans on Kubernetes.
--
-- A Pipeline names a Downloader and a Profile; its reconciler builds one pod whose init container
-- downloads the target, whose scanners are the profile's containers and whose uploaders await the
-- scanners, and then follows the pod to its end. A Search runs a Crawler in a pod that schedules
-- pipelines; a CronSearch creates searches by a cron schedule. Webhooks fill in defaults and
-- reject objects that do not fit together. In the pods two programs wrap the users' commands: the
-- sidecar writes a file when a scanner ends and lets an uploader wait for these files, and the
-- scheduler creates the pipelines and searches that a crawler writes into two named pipes.
--
-- Which file models which part, by paths from the repository's root:
--   Api            api/v1beta1: the resources' specs and statuses
--   Kube           the data of Kubernetes that the source builds and reads; Kube/Step is the form
--                  of a reconciler, Kube/Time Go's times and durations, Kube/Errors Go's errors
--   Params         internal/resources/parameters.go and internal/containers/contiditonal.go;
--                  Params/References internal/validators/parameters.go and
--                  internal/webhook/v1beta1/common.go
--   Runtime        pkg/runtime/parameters.go
--   Containers     internal/containers/options.go and parameters.go
--   Resources      internal/resources/metadata.go and references.go
--   Pipeline       internal/controller/pipeline_controller.go, constants.go and helpers.go:
--                  Stages (determineScanPodStageStatuses), Environment
--                  (generateBasePipelineEnvironment), Artifacts (generateArtifactArguments),
--                  Populate (populateScanPod), Completion (handleCompletion,
--                  handlePostCompletion), Reconcile (Reconcile), Names (constants.go)
--   Search         internal/controller/search_controller.go, split in the same way
--   CronSearch     internal/controller/cronsearch_controller.go: Schedule (getNextSchedule),
--                  Children (findExistingSearches), History (the history limits), Reconcile
--   Process        internal/process: HookCommand with its hooks and exit codes; Copy (CopyFile)
--   Sidecar        cmd/sidecar/main.go: Marks (IsScannerComplete, ScanCompleteHook), Await
--                  (AwaitScans), Main (main)
--   Scheduler      cmd/scheduler/main.go: Setup (Schedule up to its workers), Requests (what the
--                  workers create), Decoder (fifoDecoder), System (a decoder and its worker over
--                  their channel), Main (main)
--   Utils          internal/utils/maps.go
--   HelmPatch      hack/kubebuilder-helm-patch, a plugin that edits the files of a Helm chart
--   Validators     internal/validators
--   Webhook        internal/webhook/v1beta1, a file for each kind of resource
--   Prelude        shared names, signed integers, dictionaries and paths
--   Samples        small objects for the files named Tests, which apply the theorems to them
--
-- A function of the source has the same name here in snake case. A reconciler's method is a Step:
-- the writes to the API server and the changes of metrics, in order, and how it ends, by a result
-- and an error, by the panic of a nil pointer, or with a value to go on with. What the code
-- gets from outside is a parameter: the API server's answers to reads and writes (records named
-- Reader, Writer, Server and Env), controllerutil, the packages cron and time, the clock at each of
-- its readings. The hypotheses on them are named where they are used.
--
-- The two programs act on a world of any type, which package os changes by functions that are
-- parameters. Their goroutines are step relations: Sidecar/Await interleaves the looks of
-- AwaitScans with what the other containers do, Scheduler/System a decoder with its worker. The
-- name under which a scanner's sidecar writes its file, and the names that an uploader's sidecar
-- awaits, come from the environment that Pipeline/Populate builds; Pipeline/Populate/Awaited joins
-- the two. Likewise Scheduler/Requests/Laws/Inherit joins the environment that Search/Populate
-- builds with what the scheduler creates.
--
-- Choices of the model:
--   - A time is the number of nanoseconds since Go's zero time, an integer without bounds; the
--     difference of two times saturates and a duration in seconds wraps around as int64 does. The
--     comparison of seconds as float64 in the lifetime check is made in exact arithmetic, and the
--     counts of the history limits, int32 in the source, do not overflow.
--   - Times from the API server have whole seconds, so Rfc3339Copy is the identity.
--   - A Go map is an association list; where the source ranges over a map the model takes the
--     list's order. sort.Slice is an insertion sort; the theorems leave the order of equal
--     elements open.
--   - The loop of getNextSchedule stops after 100 missed starts by its own count; the model counts
--     the same 100 down, so it needs no fuel beyond the source's bound.
--   - Log lines, tracing and the offending value inside a field error are left out.
--
-- Not modelled: cmd/controller, with flags and registration; the closers of internal/process and
-- internal/utils, which only log; the cancellation of a context at a signal; generated code; the
-- registration with the manager; deletions that webhooks accept without a check; what a named pipe
-- loses while no reader has it open; and the labels of the gauge of running pipelines, which is
-- taken as the sum over them.
pub mod Prelude
pub mod Samples
pub mod Kube
pub mod Api
pub mod Params
pub mod Process
pub mod Utils
pub mod Runtime
pub mod Containers
pub mod Resources
pub mod Pipeline
pub mod Search
pub mod Scheduler
pub mod Sidecar
pub mod CronSearch
pub mod HelmPatch
pub mod Validators
pub mod Webhook
