-- ===== src/Kube/Client/Untouched.antt =====
-- Views that the calls of a clientset in one namespace leave alone, and so the clients of it.
use kubernetes_cpi.Base.{ℕ, String}
use kubernetes_cpi.Exec.Keeps.{Leaves}
use kubernetes_cpi.Kube.Objects.{Foreign}
use kubernetes_cpi.Kube.World.{World, Client, WatchOptions}
use kubernetes_cpi.Kube.Spares.{Spared, Spares}
use kubernetes_cpi.Kube.Client.{
  Calls, Clientset, core, extensions, config_maps, persistent_volume_claims, pods, deployments,
  services, ingress_service, by_client, through,
}

pub record Untouching {S Obj X : Type 0} (calls : Calls S Obj) (view : S → X) : Type 0 where
  pub get : (n : String) → Leaves view (calls.get n)
  pub create : (o : Obj) → Leaves view (calls.create o)
  pub update : (o : Obj) → Leaves view (calls.update o)
  pub delete : (n : String) (g : ℕ) → Leaves view (calls.delete n g)
  pub list : (l : String) → Leaves view (calls.list l)
  pub watch : (o : WatchOptions) (t : ℕ) → Leaves view (calls.watch o t)

-- What no call on the namespace, and none on the namespaces of the cluster, changes.
pub record Untouched {S X : Type 0} (view : S → X) (set : Clientset S) (ns : String) : Type 0 where
  pub pods : Untouching (set.core.pods ns) view
  pub config_maps : Untouching (set.core.config_maps ns) view
  pub persistent_volume_claims : Untouching (set.core.persistent_volume_claims ns) view
  pub services : Untouching (set.core.services ns) view
  pub secrets : Untouching (set.core.secrets ns) view
  pub namespaces : Untouching set.core.namespaces view
  pub deployments : Untouching (set.extensions.deployments ns) view
  pub ingresses : Untouching (set.extensions.ingresses ns) view
  pub patch_pod : (n : String) (p : Foreign) → Leaves view (set.core.patch_pod ns n p)

module _ (W : World) (clientset : Foreign → Clientset W.State) {X : Type 0} (view : W.State → X)
    (c : Client) (U : Untouched view (clientset c.clientset) c.namespace) where
  -- A client leaves what its clientset leaves in its namespace.
  pub through-Spares : Spares (through W clientset) view c
  unfolding config_maps persistent_volume_claims pods deployments services ingress_service core
      extensions
  through-Spares = record {
    pods = spared U.pods;
    config_maps = spared U.config_maps;
    claims = spared U.persistent_volume_claims;
    services = spared U.services;
    ingresses = spared U.ingresses;
    secrets = spared U.secrets;
    namespaces = spared U.namespaces;
    deployments = spared U.deployments;
    patch_pod = U.patch_pod;
  }
    where
      spared :
          {Obj : Type 0} {calls : Client → Calls W.State Obj}
          → Untouching (calls c) view
          → Spared (by_client calls) view c
      spared u = record {
        get = u.get;
        create = u.create;
        update = u.update;
        delete = u.delete;
        list = u.list;
        watch = u.watch;
      }
