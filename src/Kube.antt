-- ===== src/Kube.antt =====
-- The Kubernetes data that the source builds and reads: the fields of corev1, metav1 and
-- controller-runtime that it uses, under the libraries' names in this library's spelling.
pub mod Time
pub mod Errors
pub mod Step
pub mod Field
pub mod Env
use ocular.Prelude.{ℕ, String, Bool, Option, List}
use ocular.Prelude.Int.{ℤ}
use ocular.Prelude.Dict.{Dict}

-- metav1.OwnerReference, one whose Controller is true
pub record OwnerReference : Type 0 where
  pub uid : String
  pub kind : String
  pub api_version : String
  pub name : String

-- metav1.ObjectMeta, with the owner reference of the controller. A time that is unset is none; a value that is Go's zero time counts as unset.
pub record ObjectMeta : Type 0 where
  pub name : String
  pub generate_name : String
  pub namespace : String
  pub uid : String
  pub labels : Dict String
  pub annotations : Dict String
  pub finalizers : List String
  pub controller : Option OwnerReference
  pub creation_timestamp : Option ℤ
  pub deletion_timestamp : Option ℤ

-- metav1.ConditionStatus
pub data ConditionStatus : Type 0 where
  cond_true cond_false cond_unknown : ConditionStatus

-- metav1.Condition
pub record Condition : Type 0 where
  pub type : String
  pub status : ConditionStatus
  pub reason : String
  pub message : String
  pub last_transition_time : ℤ

-- corev1.PodPhase; `other` is any string but the four that the code tests for.
pub data PodPhase : Type 0 where
  pending running succeeded failed other : PodPhase

-- corev1.ContainerStatus: `terminated` is the exit code of State.Terminated, none when that is nil.
pub record ContainerStatus : Type 0 where
  pub name : String
  pub terminated : Option ℤ

-- corev1.EnvVar: `value_from` is the path of ValueFrom.FieldRef.
pub record EnvVar : Type 0 where
  pub name : String
  pub value : String
  pub value_from : Option String

-- corev1.VolumeMount
pub record VolumeMount : Type 0 where
  pub name : String
  pub mount_path : String

-- corev1.VolumeSource, kept apart as far as the source tells volumes apart
pub data VolumeSource : Type 0 where
  empty_dir : VolumeSource
  downward_api : String → String → VolumeSource
  source : String → VolumeSource

-- corev1.Volume
pub record Volume : Type 0 where
  pub name : String
  pub source : VolumeSource

-- corev1.SecurityContext; a pointer to a Boolean is an option
pub record SecurityContext : Type 0 where
  pub run_as_non_root : Option Bool
  pub allow_privilege_escalation : Option Bool
  pub capabilities_drop : Option (List String)
  pub seccomp_profile : Option String

-- corev1.ResourceRequirements
pub record Resources : Type 0 where
  pub limits : Dict String
  pub requests : Dict String

-- corev1.Container
pub record Container : Type 0 where
  pub name : String
  pub image : String
  pub image_pull_policy : String
  pub command : List String
  pub args : List String
  pub working_dir : String
  pub env : List EnvVar
  pub volume_mounts : List VolumeMount
  pub resources : Resources
  pub security_context : Option SecurityContext

-- corev1.PodSpec; an image pull secret is its name
pub record PodSpec : Type 0 where
  pub volumes : List Volume
  pub init_containers : List Container
  pub containers : List Container
  pub image_pull_secrets : List String
  pub service_account_name : String
  pub runtime_class_name : Option String
  pub restart_policy : String
  pub resources : Option Resources

-- corev1.PodStatus
pub record PodStatus : Type 0 where
  pub phase : PodPhase
  pub init_container_statuses : List ContainerStatus
  pub container_statuses : List ContainerStatus

-- corev1.Pod
pub record Pod : Type 0 where
  pub meta : ObjectMeta
  pub spec : PodSpec
  pub status : PodStatus

-- controllerutil.OperationResult
pub data OperationResult : Type 0 where
  created updated unchanged : OperationResult
