-- ===== src/Kube/Objects.antt =====
-- The API objects that the program reads and builds, with the fields that it names. `rest` stands
-- for all other fields of an object, which are carried along. A map that can be nil is an `Option`.
use kubernetes_cpi.Base.{ℕ, String, Bool, Option, List, Dict}

-- int32, int64
pub data ℤ : Type 0 where
  pos : ℕ → ℤ
  negsuc : ℕ → ℤ

-- Values of library types that the program hands on and never looks into.
abbrev pub Foreign : Type 0
Foreign = String

pub record ObjectMeta : Type 0 where
  pub name : String
  pub namespace : String
  pub labels : Option (Dict String)
  pub annotations : Option (Dict String)
  pub resource_version : String
  pub generation : ℕ
  pub rest : Foreign

pub data VolumeSource : Type 0 where
  config_map : String → List (String × String) → VolumeSource
  empty_dir : VolumeSource
  persistent_volume_claim : String → VolumeSource
  other_source : Foreign → VolumeSource

pub record Volume : Type 0 where
  pub name : String
  pub source : VolumeSource

pub record VolumeMount : Type 0 where
  pub name : String
  pub mount_path : String
  pub sub_path : String

-- v1.ResourceList, by resource name; none is the nil map. A quantity is a `Foreign` value.
abbrev pub ResourceList : Type 0
ResourceList = Option (Dict Foreign)

pub record ResourceRequirements : Type 0 where
  pub limits : ResourceList
  pub requests : ResourceList

pub record Container : Type 0 where
  pub name : String
  pub image : String
  pub image_pull_policy : String
  pub command : List String
  pub args : List String
  pub resources : ResourceRequirements
  pub privileged : Option Bool
  pub run_as_user : Option ℤ
  pub volume_mounts : List VolumeMount
  pub rest : Foreign

pub record PodSpec : Type 0 where
  pub hostname : String
  pub containers : List Container
  pub volumes : List Volume
  pub rest : Foreign

pub record ContainerStatus : Type 0 where
  pub name : String
  pub ready : Bool
  -- State.Running != nil
  pub running : Bool

pub record PodStatus : Type 0 where
  pub phase : String
  pub pod_ip : String
  pub container_statuses : List ContainerStatus
  pub rest : Foreign

pub record Pod : Type 0 where
  pub meta : ObjectMeta
  pub spec : PodSpec
  pub status : PodStatus

pub record ConfigMap : Type 0 where
  pub meta : ObjectMeta
  pub contents : Option (Dict String)

pub record PersistentVolumeClaim : Type 0 where
  pub meta : ObjectMeta
  pub access_modes : List String
  pub resources : ResourceRequirements
  pub phase : String

pub data IntOrString : Type 0 where
  from_int : ℤ → IntOrString
  from_string : String → IntOrString

pub record ServicePort : Type 0 where
  pub name : String
  pub protocol : String
  pub port : ℤ
  pub node_port : ℤ
  pub target_port : IntOrString

pub record Service : Type 0 where
  pub meta : ObjectMeta
  pub service_type : String
  pub cluster_ip : String
  pub ports : List ServicePort
  pub external_ips : List String
  pub load_balancer_ip : String
  pub selector : Option (Dict String)

pub record Ingress : Type 0 where
  pub meta : ObjectMeta
  pub backend : Option Foreign
  pub tls : List Foreign
  pub rules : List Foreign

pub record Secret : Type 0 where
  pub meta : ObjectMeta
  pub contents : Dict String
  pub string_data : Option (Dict String)
  pub secret_type : String

pub record Namespace : Type 0 where
  pub meta : ObjectMeta

pub record Deployment : Type 0 where
  pub meta : ObjectMeta
  pub replicas : Option ℤ
  pub template_labels : Option (Dict String)
  pub template : PodSpec
  pub progress_deadline_seconds : Option ℤ
  pub observed_generation : ℕ
  pub available_replicas : ℤ
