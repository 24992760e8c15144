-- ===== src/Scheduler/Setup.antt =====
-- Schedule of cmd/scheduler/main.go up to its workers, createFIFO and parseKubernetesClientset; and
-- the hook that Schedule returns. What os, encoding/json and client-go do is a parameter.
pub mod Laws
use ocular.Prelude.{String, Option, none, some}
use ocular.Prelude.Int.{ℤ, pos, negsuc}
use ocular.Kube.Errors.{Error, Result, ok, err, wrap}
use ocular.Api.Environment.{
  env_var_search_name, env_var_namespace_name, env_var_pipeline_fifo, env_var_search_fifo,
  env_var_pipeline_template_path, env_var_pipeline_scheduler_interval_seconds,
  env_var_scheduler_parent_uid, env_var_scheduler_search_ttl, env_var_scheduler_service_account,
}
use ocular.Api.Search.{PipelineTemplate}
use ocular.Scheduler.Requests.{Settings}

-- Config is rest.Config, Clientset is *clientset.Clientset
module _ {Config Clientset : Type 0} (new_for_config : Config → Result Clientset) where
  abbrev from_kubeconfig : Result Config → Result Clientset
  from_kubeconfig (err e) = err (Error.other "unable to parse in-cluster config and kubeconfig")
  from_kubeconfig (ok config) = new_for_config config

  -- rest.InClusterConfig and clientcmd.BuildConfigFromFlags
  unfoldable pub parse_kubernetes_clientset : Result Config → Result Config → Result Clientset
  parse_kubernetes_clientset (ok config) kubeconfig = new_for_config config
  parse_kubernetes_clientset (err e) kubeconfig = from_kubeconfig kubeconfig

-- sleepDuration
unfoldable pub sleep_duration : Result ℤ → ℤ
sleep_duration (err e) = pos 60
sleep_duration (ok (pos n)) = pos n
sleep_duration (ok (negsuc n)) = pos 60

-- `getenv` and `atoi` are os.Getenv and strconv.Atoi
unfoldable pub read_settings : (String → String) → (String → Result ℤ) → PipelineTemplate → Settings
unfolding sleep_duration
read_settings getenv atoi template = record {
  search_name = getenv env_var_search_name;
  namespace = getenv env_var_namespace_name;
  parent_uid = getenv env_var_scheduler_parent_uid;
  sleep_duration = sleep_duration (atoi (getenv env_var_pipeline_scheduler_interval_seconds));
  template = template;
  search_ttl = getenv env_var_scheduler_search_ttl;
  service_account = getenv env_var_scheduler_service_account;
  atoi = atoi;
}

-- What Schedule gets from the world `S`.
pub record SetupOs (S : Type 0) : Type 0 where
  pub getenv : String → String
  pub atoi : String → Result ℤ
  -- parseKubernetesClientset, with what is not used of its result left out
  pub clientset : Result (Unit {0})
  -- os.Open of the template's file, and the decoding of what is in it
  pub open_template : String → Option Error
  pub decode_template : String → Result PipelineTemplate
  pub mkfifo : String → S → S × Option Error
  pub chmod : String → S → S
  pub remove : String → S → S × Option Error

module _ {S : Type 0} (os : SetupOs S) where
  -- RemoveAndLog of internal/utils/readers.go: the error is only logged
  abbrev pub remove_and_log : String → S → S
  remove_and_log path s = (os.remove path s).0

  abbrev pub with_permissions : String → S × Option Error → S × Option Error
  with_permissions path (s, none) = (os.chmod path s, none)
  with_permissions path (s, some e) = (s, some (wrap "unable to create FIFO" e))

  unfoldable pub create_fifo : String → S → S × Option Error
  create_fifo path s = with_permissions path (os.mkfifo path s)

  abbrev pub pipeline_fifo_path : String
  pipeline_fifo_path = os.getenv env_var_pipeline_fifo

  abbrev pub search_fifo_path : String
  search_fifo_path = os.getenv env_var_search_fifo

  abbrev pub after_search_fifo : PipelineTemplate → S × Option Error → S × Result Settings
  after_search_fifo template (s, none) = (s, ok (read_settings os.getenv os.atoi template))
  after_search_fifo template (s, some e) =
      (remove_and_log pipeline_fifo_path s, err (Error.other "unable to create search FIFO"))

  abbrev pub after_pipeline_fifo : PipelineTemplate → S × Option Error → S × Result Settings
  after_pipeline_fifo template (s, none) =
      after_search_fifo template (create_fifo search_fifo_path s)
  after_pipeline_fifo template (s, some e) = (s, err (Error.other "unable to create pipeline FIFO"))

  abbrev pub with_template : Result PipelineTemplate → S → S × Result Settings
  with_template (err e) s = (s, err (Error.other "unable to decode pipeline template"))
  with_template (ok template) s = after_pipeline_fifo template (create_fifo pipeline_fifo_path s)

  abbrev pub with_file : Option Error → S → S × Result Settings
  with_file (some e) s = (s, err (Error.other "unable to open pipeline template file"))
  with_file none s = with_template (os.decode_template (os.getenv env_var_pipeline_template_path)) s

  abbrev pub with_clientset : Result (Unit {0}) → S → S × Result Settings
  with_clientset (err e) s = (s, err (Error.other "unable to create kubernetes clientset"))
  with_clientset (ok u) s =
      with_file (os.open_template (os.getenv env_var_pipeline_template_path)) s

  -- The result stands for the workers that are started with the settings.
  unfoldable pub schedule : S → S × Result Settings
  unfolding create_fifo read_settings
  schedule s = with_clientset os.clientset s

  -- the hook, after the workers have returned
  unfoldable pub remove_fifos : S → S
  remove_fifos s = remove_and_log search_fifo_path (remove_and_log pipeline_fifo_path s)
