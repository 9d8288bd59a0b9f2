-- ===== src/Examples/Deletions.antt =====
-- The cluster in memory meets what the theorems on deletion assume of the API server.
use kubernetes_cpi.Base.{
  String, ◌≡◌, refl, ap, ◌∙◌, Bool, true, false, Option, none, some, List, [], Dict, lookup,
  lookup-erase, ◌==◌, if◌then◌else◌, arith,
}
use kubernetes_cpi.Kube.Objects.{Pod, PersistentVolumeClaim, Deployment, Service}
use kubernetes_cpi.Kube.Watch.{Signal}
use kubernetes_cpi.Kube.World.{Client}
use kubernetes_cpi.Kube.Memory.{Cluster, memory}
use kubernetes_cpi.Kube.Memory.Serves.{
  delete_by-gone, delete_by-state, delete_by-apart, pods_of, put_pods, pod_name, configs_of,
  put_configs, config_name,
}
use kubernetes_cpi.Actions.Vms.Gone.{Deletes}

abbrev present {ℓ} : {A : Type ℓ} → Option A → Bool
present none = false
present (some a) = true

present-if :
    (b : Bool) (x y : Option Service)
    → present (if b then x else y) ≡ (if b then present x else present y)
present-if b x y = ground arith

abbrev pods_in : Cluster → Client → String → Bool
pods_in s c n = present (lookup n s.pods)

abbrev services_in : Cluster → Client → String → Bool
services_in s c n = present (lookup n s.services)

abbrev configs_in : Cluster → Client → String → Bool
configs_in s c n = present (lookup n s.config_maps)

abbrev pub services_of : Cluster → Dict Service
services_of s = s.services

abbrev pub put_services : Cluster → Dict Service → Cluster
put_services s m = record s { services = m }

abbrev pub service_name : Service → String
service_name service = service.meta.name

module _ (pod_signals : List (Signal Pod)) (claim_signals : List (Signal PersistentVolumeClaim))
    (deployment_signals : List (Signal Deployment)) where
  pub deletes : Deletes (memory pod_signals claim_signals deployment_signals)
  deletes = record {
    pod_exists = pods_in;
    service_exists = services_in;
    config_exists = configs_in;
    pod_gone = λ c n s h. ap present (
        delete_by-gone pods_of put_pods pod_name pod_signals (λ s m. refl) (lookup n s.pods) n s
          refl);
    config_gone = λ c n s h. ap present (
        delete_by-gone configs_of put_configs config_name [] (λ s m. refl) (lookup n s.config_maps)
          n s refl);
    service_gone = λ c n s h j.
        ap (λ t. services_in t c j)
          (delete_by-state services_of put_services service_name [] (lookup n s.services) n s h)
        ∙ ap present (lookup-erase n j s.services)
        ∙ present-if (n == j) none (lookup j s.services);
    pods_kept_listing = λ c l s. refl;
    pods_kept = λ c n g s.
        delete_by-apart services_of put_services service_name [] pods_in (λ s m. refl)
          (lookup n s.services) n s;
    pods_kept_by_configs = λ c n g s.
        delete_by-apart configs_of put_configs config_name [] pods_in (λ s m. refl)
          (lookup n s.config_maps) n s;
    services_kept_by_configs = λ c n g s.
        delete_by-apart configs_of put_configs config_name [] services_in (λ s m. refl)
          (lookup n s.config_maps) n s;
  }
