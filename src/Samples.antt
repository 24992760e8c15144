-- ===== src/Samples.antt =====
-- Small objects that the tests of the components share.
use ocular.Prelude.{String, none, some, [], ◌∷◌}
use ocular.Prelude.Int.{pos}
use ocular.Kube.{ObjectMeta, Container, ContainerStatus, Pod, PodPhase, PodSpec, Resources}
use ocular.Kube.Errors.{Error, ok, err}
use ocular.Api.Common.{ObjectRef, ParameterDefinition, ParameterSetting}
use ocular.Api.Pipeline.{Pipeline, PipelineStatus, PipelinePhase, StageStatus}
use ocular.Api.Resources.{Object, ProfileSpec, DownloaderSpec, UploaderSpec, CrawlerSpec}
use ocular.Api.Search.{Search, SearchSpec}
use ocular.Resources.References.{Reader, Invocation}

abbrev pub meta_of : String → ObjectMeta
meta_of name = record {
  name = name;
  generate_name = "";
  namespace = "default";
  uid = "";
  labels = [];
  annotations = [];
  finalizers = [];
  controller = none;
  creation_timestamp = some (pos 1000);
  deletion_timestamp = none;
}

abbrev pub no_resources : Resources
no_resources = record { limits = []; requests = [] }

abbrev pub container_of : String → Container
container_of name = record {
  name = name;
  image = "image";
  image_pull_policy = "Always";
  command = "run" ∷ [];
  args = "--all" ∷ [];
  working_dir = "";
  env = [];
  volume_mounts = [];
  resources = no_resources;
  security_context = none;
}

-- a parameter without a default, and one with
abbrev pub depth : ParameterDefinition
depth = record { name = "depth"; description = ""; default = none }

abbrev pub branch : ParameterDefinition
branch = record { name = "branch"; description = ""; default = some "main" }

abbrev pub depth_set : ParameterSetting
depth_set = record { name = "depth"; value = "3"; value_from = none }

abbrev pub depth_from_parent : ParameterSetting
depth_from_parent = record {
  name = "depth";
  value = "";
  value_from = some (record { parent_param = "branch" });
}

abbrev pub ref_to : String → String → ObjectRef
ref_to name kind = record { name = name; kind = kind; parameters = depth_set ∷ [] }

abbrev pub bare_ref : String → String → ObjectRef
bare_ref name kind = record { name = name; kind = kind; parameters = [] }

abbrev pub git : Object DownloaderSpec
git = record {
  meta = meta_of "git";
  spec = record {
    container = container_of "clone";
    volumes = [];
    metadata_files = "commit.json" ∷ [];
    parameters = branch ∷ [];
    image_pull_secrets = [];
  };
}

abbrev pub upload : Object UploaderSpec
upload = record {
  meta = meta_of "upload";
  spec = record {
    container = container_of "upload";
    volumes = [];
    parameters = depth ∷ [];
    image_pull_secrets = [];
  };
}

abbrev pub quick : Object ProfileSpec
quick = record {
  meta = meta_of "quick";
  spec = record {
    containers =
        record { container = container_of "lint"; include_if = none }
        ∷ record {
          container = container_of "deep";
          include_if = some (record { when_param_set = "depth" });
        }
        ∷ [];
    artifacts = "report.json" ∷ [];
    volumes = [];
    uploader_refs = ref_to "upload" "Uploader" ∷ [];
    parameters = depth ∷ branch ∷ [];
    image_pull_secrets = [];
  };
}

abbrev pub github : Object CrawlerSpec
github = record {
  meta = meta_of "github";
  spec = record {
    container = container_of "crawl";
    volumes = [];
    parameters = [];
    image_pull_secrets = [];
  };
}

abbrev pub reader : Reader
reader = record {
  get_profile = λ namespace name. ok quick;
  get_downloader = λ namespace name. ok git;
  get_cluster_downloader = λ name. err Error.not_found;
  get_uploader = λ namespace name. ok upload;
  get_cluster_uploader = λ name. err Error.not_found;
  get_crawler = λ namespace name. ok github;
  get_cluster_crawler = λ name. err Error.not_found;
}

abbrev pub profile_invocation : Invocation ProfileSpec
profile_invocation = record {
  spec = quick.spec;
  parameters = depth_set ∷ [];
  metadata = quick.meta;
}

abbrev pub downloader_invocation : Invocation DownloaderSpec
downloader_invocation = record { spec = git.spec; parameters = []; metadata = git.meta }

abbrev pub uploader_invocation : Invocation UploaderSpec
uploader_invocation = record {
  spec = upload.spec;
  parameters = depth_set ∷ [];
  metadata = upload.meta;
}

-- the status of a pipeline that has started and whose upload is skipped
abbrev pub started : PipelineStatus
started = record {
  conditions = [];
  start_time = some (pos 2000);
  completion_time = none;
  phase = PipelinePhase.downloading;
  stage_statuses = record {
    download_status = StageStatus.in_progress;
    scan_status = StageStatus.not_started;
    upload_status = StageStatus.skipped;
  };
}

abbrev pub scan : Pipeline
scan = record {
  meta = meta_of "scan";
  spec = record {
    downloader_ref = bare_ref "git" "Downloader";
    profile_ref = ref_to "quick" "Profile";
    target = record { identifier = "repo"; version = "1" };
    service_account_name = "default";
    runtime_class_name = none;
    ttl_seconds_after_finished = some (pos 60);
    ttl_seconds_max_lifetime = none;
    parameters = [];
    resources = none;
  };
  status = started;
}

abbrev pub finished_scan : Pipeline
finished_scan = record scan { status = record started { completion_time = some (pos 3000) } }

abbrev pub empty_pod_spec : PodSpec
empty_pod_spec = record {
  volumes = [];
  init_containers = [];
  containers = [];
  image_pull_secrets = [];
  service_account_name = "";
  runtime_class_name = none;
  restart_policy = "";
  resources = none;
}

abbrev pub download_failed : ContainerStatus
download_failed = record { name = "downloader-clone"; terminated = some (pos 1) }

-- a pod whose download has exit code 1, and whose scanner runs
abbrev pub scan_pod : Pod
scan_pod = record {
  meta = meta_of "pipeline-scan";
  spec = empty_pod_spec;
  status = record {
    phase = PodPhase.running;
    init_container_statuses =
        record { name = "sidecar-init"; terminated = some (pos 0) } ∷ download_failed ∷ [];
    container_statuses = record { name = "scanner-lint"; terminated = none } ∷ [];
  };
}

abbrev pub search_spec : SearchSpec
search_spec = record {
  crawler_ref = bare_ref "github" "Crawler";
  ttl_seconds_after_finished = none;
  service_account_name = "search-nightly";
  runtime_class_name = none;
  scheduler = record {
    pipeline_template = record { meta = meta_of ""; spec = scan.spec };
    interval_seconds = none;
  };
  resources = none;
}

abbrev pub running_search : String → Search
running_search name = record {
  meta = meta_of name;
  spec = search_spec;
  status = record {
    conditions = [];
    start_time = some (pos 2000);
    completion_time = none;
    cron_search_controller_name = none;
  };
}
