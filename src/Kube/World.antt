-- ===== src/Kube/World.antt =====
-- What the program calls and does not implement: the API server behind client-go, the clock, and
-- the vendored libraries for selectors, validation, quantities, patches and JSON text. All of it
-- is a parameter. A call may change the state of the world, and answers with a value or an error.
use Prim.Native.Char.{Char}
use kubernetes_cpi.Base.{ℕ, String, List}
use kubernetes_cpi.Exec.{Result, Call}
use kubernetes_cpi.Kube.Objects.{
  Foreign, Pod, ConfigMap, PersistentVolumeClaim, Service, Ingress, Secret, Namespace, Deployment,
}
use kubernetes_cpi.Kube.Watch.{Signal}
use kubernetes_cpi.Agent.{Settings}

-- kubecluster.client: the context, the namespace that its calls go to, and the *kubernetes.Clientset.
pub record Client : Type 0 where
  pub context : String
  pub namespace : String
  pub clientset : Foreign

-- v1.ListOptions of a watch.
pub record WatchOptions : Type 0 where
  pub label_selector : String
  pub resource_version : String

-- The methods of `core.PodInterface` and its like, in the namespace of the client.
pub record Resource (S Obj : Type 0) : Type 0 where
  pub get : Client → String → Call S Obj
  pub create : Client → Obj → Call S Obj
  pub update : Client → Obj → Call S Obj
  -- with the grace period in seconds
  pub delete : Client → String → ℕ → Call S (Unit {0})
  -- by a label selector
  pub list : Client → String → Call S (List Obj)
  -- Opens a watch beside a timer of the given time: what a `select` over both receives.
  pub watch : Client → WatchOptions → ℕ → Call S (List (Signal Obj))

pub record World : Type 1 where
  pub State : Type 0
  -- ClientProvider.New
  pub new_client : String → Call State Client
  pub pods : Resource State Pod
  pub config_maps : Resource State ConfigMap
  pub claims : Resource State PersistentVolumeClaim
  pub services : Resource State Service
  pub ingresses : Resource State Ingress
  pub secrets : Resource State Secret
  pub namespaces : Resource State Namespace
  pub deployments : Resource State Deployment
  -- Pods().Patch with a strategic merge patch
  pub patch_pod : Client → String → Foreign → Call State Pod
  -- Clock.Sleep
  pub sleep : ℕ → State → State
  -- ioutil.ReadFile
  pub read_file : String → Call State String
  -- labels.Parse, and String of the selector
  pub parse_selector : String → Result String
  -- the complaints of validation.IsQualifiedName and validation.IsValidLabelValue
  pub is_qualified_name : String → List String
  pub is_valid_label_value : String → List String
  -- resource.ParseQuantity
  pub parse_quantity : String → Result Foreign
  -- unicode.ToLower, beyond ASCII
  pub lower_unicode : Char → Char
  -- json.Marshal and json.Unmarshal of the agent's settings
  pub marshal_settings : Settings → Result String
  pub unmarshal_settings : String → Result Settings
  -- json.Marshal of a pod, and strategicpatch.CreateTwoWayMergePatch
  pub marshal_pod : Pod → Result String
  pub create_patch : String → String → Pod → Result Foreign
