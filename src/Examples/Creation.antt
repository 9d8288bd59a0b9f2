-- ===== src/Examples/Creation.antt =====
-- A VM is created, or refused.
use kubernetes_cpi.Base.{
  ◌≡◌, refl, sym, ap, ◌∙◌, true, false, Option, none, some, [], ◌∷◌, lookup, Dict,
}
use kubernetes_cpi.Exec.{returns, ok}
use kubernetes_cpi.Text.{is_empty}
use kubernetes_cpi.Cid.{new_vmcid}
use kubernetes_cpi.Cid.Laws.{has_colon}
use kubernetes_cpi.Kube.Objects.{Pod, Namespace, ConfigMap, Service, Secret}
use kubernetes_cpi.Kube.World.{Client}
use kubernetes_cpi.Kube.Memory.{Cluster, values, create_by}
use kubernetes_cpi.Kube.Memory.Serves.{get_by-state, create_by-apart, pods_of, put_pods, pod_name}
use kubernetes_cpi.Actions.CreateVm.{create}
use kubernetes_cpi.Actions.CreateVm.Found.{ListsPods, create-has_vm}
use kubernetes_cpi.Actions.Vms.{has_vm}
use kubernetes_cpi.Actions.CreateVm.Props.{VmCloudProperties}
use kubernetes_cpi.Actions.CreateVm.Progress.{VmMade, create_iff}
use kubernetes_cpi.Actions.CreateVm.Leftover.{create-leftover}
use kubernetes_cpi.Kube.Objects.{pos}
use kubernetes_cpi.Actions.CreateVm.Views.{Starts, Aside, create-Keeps}
use kubernetes_cpi.Examples.Fixtures.{pod_signals, world, start, at_rest}
use kubernetes_cpi.Examples.Attached.{claims_of}
use kubernetes_cpi.Examples.Vms.{creator, network, properties, create_runs}
use kubernetes_cpi.Examples.Finding.{inserted_there}

-- All that a VM needs before its pod, made for a VM that is created.
made :
    VmMade world creator "b" "stemcell" properties
      (("private", network) ∷ [])
      []
      "{}"
      start
      (new_vmcid "ctx" "b")
      (create world creator "b" "stemcell" properties (("private", network) ∷ []) [] "{}" start).1
made =
    (create_iff world creator "b" "stemcell" properties (("private", network) ∷ []) [] "{}" start
        (new_vmcid "ctx" "b")
        (create world creator "b" "stemcell" properties (("private", network) ∷ []) [] "{}"
          start).1).0
      (create_runs, refl)

abbrev no_replicas : VmCloudProperties
no_replicas = record properties { replicas = some (pos 0) }

-- What a VM needs before its pod.
abbrev before_pod : Cluster → Dict Namespace × (Dict ConfigMap × (Dict Service × Dict Secret))
before_pod s = (s.namespaces, (s.config_maps, (s.services, s.secrets)))

starts : {c : Client} → Starts world before_pod c
starts = record {
  create_pod = λ o. record {
    at = λ s.
        create_by-apart pods_of put_pods pod_name pod_signals before_pod (λ s m. refl)
          (lookup o.meta.name s.pods) o s;
  };
  create_deployment = λ o. record {
    at = λ s.
        create_by-apart (λ (s : Cluster). s.deployments) (λ s m. record s { deployments = m })
          (λ o. o.meta.name) [] before_pod (λ s m. refl) (lookup o.meta.name s.deployments) o s;
  };
  watch_deployment = λ o t. record { at = λ s. refl };
}

create-leftover_example :
    before_pod
      (create world creator "b" "stemcell" no_replicas (("private", network) ∷ []) [] "{}" start).1
    ≡ before_pod (made.2)
create-leftover_example =
    create-leftover world creator "b" "stemcell" no_replicas (("private", network) ∷ []) [] "{}"
      before_pod start (made.2) (made.0) (made.1) starts (made.3)

aside : {c : Client} → Aside world claims_of c
aside = record {
  get_namespace = λ n. record {
    at = λ s. ap claims_of (
        get_by-state (λ (s : Cluster). s.namespaces) (λ s m. record s { namespaces = m })
          (λ o. o.meta.name) [] (lookup n s.namespaces) n s);
  };
  create_namespace = λ o. record {
    at = λ s.
        create_by-apart (λ (s : Cluster). s.namespaces) (λ s m. record s { namespaces = m })
          (λ o. o.meta.name) [] claims_of (λ s m. refl) (lookup o.meta.name s.namespaces) o s;
  };
  create_config = λ o. record {
    at = λ s.
        create_by-apart (λ (s : Cluster). s.config_maps) (λ s m. record s { config_maps = m })
          (λ o. o.meta.name) [] claims_of (λ s m. refl) (lookup o.meta.name s.config_maps) o s;
  };
  get_service = λ n. record {
    at = λ s. ap claims_of (
        get_by-state (λ (s : Cluster). s.services) (λ s m. record s { services = m })
          (λ o. o.meta.name) [] (lookup n s.services) n s);
  };
  create_service = λ o. record {
    at = λ s.
        create_by-apart (λ (s : Cluster). s.services) (λ s m. record s { services = m })
          (λ o. o.meta.name) [] claims_of (λ s m. refl) (lookup o.meta.name s.services) o s;
  };
  create_ingress = λ o. record {
    at = λ s.
        create_by-apart (λ (s : Cluster). s.ingresses) (λ s m. record s { ingresses = m })
          (λ o. o.meta.name) [] claims_of (λ s m. refl) (lookup o.meta.name s.ingresses) o s;
  };
  get_secret = λ n. record {
    at = λ s. ap claims_of (
        get_by-state (λ (s : Cluster). s.secrets) (λ s m. record s { secrets = m })
          (λ o. o.meta.name) [] (lookup n s.secrets) n s);
  };
  create_secret = λ o. record {
    at = λ s.
        create_by-apart (λ (s : Cluster). s.secrets) (λ s m. record s { secrets = m })
          (λ o. o.meta.name) [] claims_of (λ s m. refl) (lookup o.meta.name s.secrets) o s;
  };
  create_pod = λ o. record {
    at = λ s.
        create_by-apart (λ (s : Cluster). s.pods) (λ s m. record s { pods = m }) (λ o. o.meta.name)
          pod_signals claims_of (λ s m. refl) (lookup o.meta.name s.pods) o s;
  };
  create_deployment = λ o. record {
    at = λ s.
        create_by-apart (λ (s : Cluster). s.deployments) (λ s m. record s { deployments = m })
          (λ o. o.meta.name) [] claims_of (λ s m. refl) (lookup o.meta.name s.deployments) o s;
  };
  watch_deployment = λ o t. record { at = λ s. refl };
}

create-Keeps_example :
    claims_of
      (create world creator "b" "stemcell" properties (("private", network) ∷ []) [] "{}" start).1
    ≡ claims_of start
create-Keeps_example =
    create-Keeps world claims_of (at_rest claims_of (λ n s. refl)) creator "b" "stemcell" properties
      (("private", network) ∷ []) [] "{}" start λ t c made. aside

made_pod :
    (found : Option Pod) (p q : Pod) (s : Cluster)
    → (create_by pods_of put_pods pod_name pod_signals found p s).0 ≡ ok q
    → is_empty (values (create_by pods_of put_pods pod_name pod_signals found p s).1.pods) ≡ false
made_pod none p q s h = inserted_there p.meta.name p s.pods
made_pod (some found) p q s h = cc

answered : {A : Type 0} {a b : A} → ok a ≡ ok b → a ≡ b
answered h = cc

lists_pods : ListsPods world
lists_pods = record {
  labelled = λ s c agent_id. values s.pods;
  list = λ c agent_id selector s h. refl;
  create = λ c p agent_id s q h label. made_pod (lookup p.meta.name s.pods) p q s h;
  new_client_leaves = λ x. record { at = λ s. refl };
  new_client =
      λ x c s t h. ap (λ (c' : Client). (world.new_client c'.context s).0) (sym (answered h)) ∙ h;
}

no_colon : (c : Client) → (world.new_client "ctx" start).0 ≡ ok c → has_colon c.context ≡ false
no_colon c h = ap (λ (c' : Client). has_colon c'.context) (sym (answered h))

create-has_vm_example :
    (has_vm world
      (new_vmcid "ctx" "b")
      (create world creator "b" "stemcell" properties
        (("private", network) ∷ [])
        []
        "{}"
        start).1).0
    ≡ returns true
create-has_vm_example =
    create-has_vm world lists_pods creator "b" "stemcell" "bosh.cloudfoundry.org/agent-id=b"
      properties (("private", network) ∷ []) [] "{}" (new_vmcid "ctx" "b") start
      (create world creator "b" "stemcell" properties (("private", network) ∷ []) [] "{}" start).1
      refl refl no_colon create_runs refl
