-- ===== src/Kube/Client.antt =====
-- kubecluster/client.go: the interfaces of a client, of its own clientset and in its own namespace.
pub mod Untouched
use kubernetes_cpi.Base.{ℕ, String, List}
use kubernetes_cpi.Exec.{Call}
use kubernetes_cpi.Kube.Objects.{
  Foreign, Pod, ConfigMap, PersistentVolumeClaim, Service, Ingress, Secret, Namespace, Deployment,
}
use kubernetes_cpi.Kube.Watch.{Signal}
use kubernetes_cpi.Kube.World.{World, Client, Resource, WatchOptions}

-- core.PodInterface and its like, of a namespace if the objects have one.
pub record Calls (S Obj : Type 0) : Type 0 where
  pub get : String → Call S Obj
  pub create : Obj → Call S Obj
  pub update : Obj → Call S Obj
  pub delete : String → ℕ → Call S (Unit {0})
  pub list : String → Call S (List Obj)
  pub watch : WatchOptions → ℕ → Call S (List (Signal Obj))

-- Core() of a clientset, core.CoreV1Interface: its interfaces by namespace.
pub record Core (S : Type 0) : Type 0 where
  pub config_maps : String → Calls S ConfigMap
  pub persistent_volume_claims : String → Calls S PersistentVolumeClaim
  pub persistent_volumes : Calls S Foreign
  pub pods : String → Calls S Pod
  -- Patch of the pods
  pub patch_pod : String → String → Foreign → Call S Pod
  pub services : String → Calls S Service
  pub secrets : String → Calls S Secret
  pub namespaces : Calls S Namespace

-- Extensions() of a clientset.
pub record Extensions (S : Type 0) : Type 0 where
  pub deployments : String → Calls S Deployment
  pub ingresses : String → Calls S Ingress

-- *kubernetes.Clientset
pub record Clientset (S : Type 0) : Type 0 where
  pub core : Core S
  pub extensions : Extensions S

-- `clientset` gives the calls of a clientset that the vendored client has made.
module _ {S : Type 0} (clientset : Foreign → Clientset S) (c : Client) where
  -- Core() and Extensions(), of the embedded clientset
  unfoldable pub core : Core S
  core = (clientset c.clientset).core

  unfoldable pub extensions : Extensions S
  extensions = (clientset c.clientset).extensions

  unfoldable pub config_maps : Calls S ConfigMap
  unfolding core
  config_maps = core.config_maps c.namespace

  unfoldable pub persistent_volume_claims : Calls S PersistentVolumeClaim
  unfolding core
  persistent_volume_claims = core.persistent_volume_claims c.namespace

  unfoldable pub persistent_volumes : Calls S Foreign
  unfolding core
  persistent_volumes = core.persistent_volumes

  unfoldable pub pods : Calls S Pod
  unfolding core
  pods = core.pods c.namespace

  unfoldable pub deployments : Calls S Deployment
  unfolding extensions
  deployments = extensions.deployments c.namespace

  unfoldable pub services : Calls S Service
  unfolding core
  services = core.services c.namespace

  unfoldable pub ingress_service : Calls S Ingress
  unfolding extensions
  ingress_service = extensions.ingresses c.namespace

abbrev pub by_client : {S Obj : Type 0} → (Client → Calls S Obj) → Resource S Obj
by_client calls = record {
  get = λ c. (calls c).get;
  create = λ c. (calls c).create;
  update = λ c. (calls c).update;
  delete = λ c. (calls c).delete;
  list = λ c. (calls c).list;
  watch = λ c. (calls c).watch;
}

-- The world in which a client's calls go where its interfaces say. Secrets and namespaces are asked
-- for by Core(), the secrets in the client's namespace.
abbrev pub through : (W : World) → (Foreign → Clientset W.State) → World
through W clientset = record W {
  pods = by_client (pods clientset);
  config_maps = by_client (config_maps clientset);
  claims = by_client (persistent_volume_claims clientset);
  services = by_client (services clientset);
  ingresses = by_client (ingress_service clientset);
  secrets = by_client (λ c. (core clientset c).secrets c.namespace);
  namespaces = by_client (λ c. (core clientset c).namespaces);
  deployments = by_client (deployments clientset);
  patch_pod = λ c. (core clientset c).patch_pod c.namespace;
}
