-- ===== src/Kube/Memory/Serves.antt =====
-- The cluster in memory meets what the theorems assume of the API server.
use kubernetes_cpi.Base.{
  String, ◌≡◌, refl, ap, ◌∙◌, Bool, true, false, Option, none, some, List, [], Dict, lookup, insert,
  erase, lookup-insert, lookup-erase, ◌==◌, eq_iff, eq_refl, if◌then◌else◌, Bool-cases, inl, inr,
  arith,
}
use kubernetes_cpi.Exec.{ok}
use kubernetes_cpi.Kube.Objects.{PodSpec, Pod, ConfigMap, PersistentVolumeClaim, Deployment}
use kubernetes_cpi.Kube.Watch.{Signal}
use kubernetes_cpi.Kube.World.{Client}
use kubernetes_cpi.Kube.Server.{Server}
use kubernetes_cpi.Kube.Memory.{Cluster, memory, get_by, create_by, update_by, delete_by}

abbrev pub spec_of : String → Option Pod → Option PodSpec
spec_of name none = none
spec_of name (some pod) = if pod.meta.name == name then some pod.spec else none

abbrev pub contents_of : Option ConfigMap → Option (Dict String)
contents_of none = none
contents_of (some cm) = cm.contents

module _ {Obj : Type 0} (objects : Cluster → Dict Obj) (put : Cluster → Dict Obj → Cluster)
    (name_of : Obj → String) (signals : List (Signal Obj)) where
  pub get_by-found :
      (found : Option Obj) (name : String) (s : Cluster) {o : Obj}
      → (get_by objects put name_of signals found name s).0 ≡ ok o
      → (found ≡ some o) × (name_of o ≡ name)
  get_by-found none name s h = cc
  get_by-found (some o) name s h = elim (Bool-cases (name_of o == name)) [
    | inl same ↦ (cc (rw same at h), cc (rw same at h, (eq_iff (name_of o) name).0 same))
    | inr other ↦ cc (rw other at h)
  ]

  pub get_by-state :
      (found : Option Obj) (name : String) (s : Cluster)
      → (get_by objects put name_of signals found name s).1 ≡ s
  get_by-state none name s = refl
  get_by-state (some o) name s = ground arith

  pub create_by-state :
      (found : Option Obj) (o : Obj) (s : Cluster) {o' : Obj}
      → (create_by objects put name_of signals found o s).0 ≡ ok o'
      → (create_by objects put name_of signals found o s).1
        ≡ put s (insert (name_of o) o (objects s))
  create_by-state none o s h = refl
  create_by-state (some found) o s h = cc

  pub update_by-state :
      (found : Option Obj) (o : Obj) (s : Cluster) {o' : Obj}
      → (update_by objects put name_of signals found o s).0 ≡ ok o'
      → (update_by objects put name_of signals found o s).1
        ≡ put s (insert (name_of o) o (objects s))
  update_by-state (some found) o s h = refl
  update_by-state none o s h = cc

  pub delete_by-state :
      (found : Option Obj) (name : String) (s : Cluster)
      → (delete_by objects put name_of signals found name s).0 ≡ ok tt
      → (delete_by objects put name_of signals found name s).1 ≡ put s (erase name (objects s))
  delete_by-state (some found) name s h = refl
  delete_by-state none name s h = cc

  pub delete_by-gone :
      ((s : Cluster) (m : Dict Obj) → objects (put s m) ≡ m)
      → (found : Option Obj) (name : String) (s : Cluster) → lookup name (objects s) ≡ found
      → lookup name (objects (delete_by objects put name_of signals found name s).1) ≡ none
  delete_by-gone law none name s h = h
  delete_by-gone law (some found) name s h =
      ap (lookup name) (law s _) ∙ lookup-erase name name (objects s) ∙ rw (eq_refl name)

  -- What the writes leave, whether or not they succeed.
  module _ {A : Type 0} (view : Cluster → A)
      (apart : (s : Cluster) (m : Dict Obj) → view (put s m) ≡ view s) where
    pub create_by-apart :
        (found : Option Obj) (o : Obj) (s : Cluster)
        → view (create_by objects put name_of signals found o s).1 ≡ view s
    create_by-apart none o s = apart s _
    create_by-apart (some found) o s = refl

    pub update_by-apart :
        (found : Option Obj) (o : Obj) (s : Cluster)
        → view (update_by objects put name_of signals found o s).1 ≡ view s
    update_by-apart none o s = refl
    update_by-apart (some found) o s = apart s _

    pub delete_by-apart :
        (found : Option Obj) (name : String) (s : Cluster)
        → view (delete_by objects put name_of signals found name s).1 ≡ view s
    delete_by-apart none name s = refl
    delete_by-apart (some found) name s = apart s _

abbrev pub pods_of : Cluster → Dict Pod
pods_of s = s.pods

abbrev pub put_pods : Cluster → Dict Pod → Cluster
put_pods s m = record s { pods = m }

abbrev pub pod_name : Pod → String
pod_name pod = pod.meta.name

abbrev pub configs_of : Cluster → Dict ConfigMap
configs_of s = s.config_maps

abbrev pub put_configs : Cluster → Dict ConfigMap → Cluster
put_configs s m = record s { config_maps = m }

abbrev pub config_name : ConfigMap → String
config_name cm = cm.meta.name

abbrev specs_in : Cluster → Client → String → Option PodSpec
specs_in s c n = spec_of n (lookup n s.pods)

abbrev configs_in : Cluster → Client → String → Option (Dict String)
configs_in s c n = contents_of (lookup n s.config_maps)

pub spec_of-inserted :
    (p : Pod) (name : String) (o : Option Pod)
    → spec_of name (if p.meta.name == name then some p else o)
      ≡ (if p.meta.name == name then some p.spec else spec_of name o)
spec_of-inserted p name o = elim (Bool-cases (p.meta.name == name)) [
  | inl same ↦ rw same (rw same refl)
  | inr other ↦ rw other refl
]

pub spec_of-erased :
    (b : Bool) (name : String) (o : Option Pod)
    → spec_of name (if b then none else o) ≡ (if b then none else spec_of name o)
spec_of-erased true name o = refl
spec_of-erased false name o = refl

pub contents_of-if :
    (b : Bool) (x y : Option ConfigMap)
    → contents_of (if b then x else y) ≡ (if b then contents_of x else contents_of y)
contents_of-if b x y = ground arith

module _ (pod_signals : List (Signal Pod)) (claim_signals : List (Signal PersistentVolumeClaim))
    (deployment_signals : List (Signal Deployment)) where
  unfoldable pub serves : Server (memory pod_signals claim_signals deployment_signals)
  serves = record {
    specs = specs_in;
    configs = configs_in;
    new_client_specs = λ x s. refl;
    new_client_configs = λ x s. refl;
    get_pod = λ c n s h.
        let (found, name) =
          get_by-found pods_of put_pods pod_name pod_signals (lookup n s.pods) n s h in
        (ap (spec_of n) found ∙ rw name (rw (eq_refl n) refl), name);
    get_pod_specs = λ c n s.
        ap specs_in (get_by-state pods_of put_pods pod_name pod_signals (lookup n s.pods) n s);
    get_pod_configs = λ c n s.
        ap configs_in (get_by-state pods_of put_pods pod_name pod_signals (lookup n s.pods) n s);
    get_config = λ c n s h.
        let (found, name) =
          get_by-found configs_of put_configs config_name [] (lookup n s.config_maps) n s h in
        (ap contents_of found, name);
    get_config_specs = λ c n s.
        ap specs_in
          (get_by-state configs_of put_configs config_name [] (lookup n s.config_maps) n s);
    get_config_configs = λ c n s.
        ap configs_in
          (get_by-state configs_of put_configs config_name [] (lookup n s.config_maps) n s);
    update_config = λ c m s h j.
        ap (λ t. configs_in t c j)
          (update_by-state configs_of put_configs config_name [] (lookup m.meta.name s.config_maps)
            m s h)
        ∙ ap contents_of (lookup-insert m.meta.name j m s.config_maps)
        ∙ contents_of-if (m.meta.name == j) (some m) (lookup j s.config_maps);
    update_config_specs = λ c m s.
        update_by-apart configs_of put_configs config_name [] specs_in (λ s m. refl)
          (lookup m.meta.name s.config_maps) m s;
    delete_pod = λ c n g s h j.
        ap (λ t. specs_in t c j)
          (delete_by-state pods_of put_pods pod_name pod_signals (lookup n s.pods) n s h)
        ∙ ap (spec_of j) (lookup-erase n j s.pods)
        ∙ spec_of-erased (n == j) j (lookup j s.pods);
    delete_pod_configs = λ c n g s.
        delete_by-apart pods_of put_pods pod_name pod_signals configs_in (λ s m. refl)
          (lookup n s.pods) n s;
    create_pod = λ c p s h j.
        ap (λ t. specs_in t c j)
          (create_by-state pods_of put_pods pod_name pod_signals (lookup p.meta.name s.pods) p s h)
        ∙ ap (spec_of j) (lookup-insert p.meta.name j p s.pods)
        ∙ spec_of-inserted p j (lookup j s.pods);
    create_pod_configs = λ c p s.
        create_by-apart pods_of put_pods pod_name pod_signals configs_in (λ s m. refl)
          (lookup p.meta.name s.pods) p s;
    watch_specs = λ c o t s. refl;
    watch_configs = λ c o t s. refl;
    sleep_specs = λ n s. refl;
    sleep_configs = λ n s. refl;
  }
