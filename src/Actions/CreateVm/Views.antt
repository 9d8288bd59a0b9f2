-- ===== src/Actions/CreateVm/Views.antt =====
-- What `Create` never touches.
use kubernetes_cpi.Base.{ℕ, String, ◌≡◌, ◌∙◌, Option, none, some, List, [], ◌∷◌, Dict, insert}
use kubernetes_cpi.Exec.{Result, ok, err, call, pure, ◌>>◌}
use kubernetes_cpi.Exec.Keeps.{
  Keeps, Leaves, Keeps-if, Keeps-bind, Keeps-then, Keeps-call-bind, keeps_rules,
}
use kubernetes_cpi.Agent
use kubernetes_cpi.Cpi
use kubernetes_cpi.Cpi.{Networks}
use kubernetes_cpi.Kube.Objects
use kubernetes_cpi.Kube.Objects.{ℤ, Pod, ConfigMap, Ingress, Namespace, Deployment}
use kubernetes_cpi.Kube.World.{World, Client, WatchOptions}
use kubernetes_cpi.Kube.Spares.{Ambient}
use kubernetes_cpi.Actions.CreateVm.Props
use kubernetes_cpi.Actions.CreateVm.Props.{VmCloudProperties}
use kubernetes_cpi.Actions.CreateVm.{
  VmCreator, namespace_object, namespace_if_absent, create_namespace, create_config_map,
  create_workload, create,
}
use kubernetes_cpi.Actions.CreateVm.Services.{
  kube_service, kube_ingress, service_if_absent, create_service, create_services,
}
use kubernetes_cpi.Actions.CreateVm.Secrets.{
  read_contents, secret_if_absent, create_one, create_secret,
}
use kubernetes_cpi.Actions.CreateVm.Pods.{create_pod, wait_for_deployment, create_deployment}

-- A view of the cluster that is left alone by the calls of a client that create a VM.
pub record Aside (W : World) {X : Type 0} (view : W.State → X) (c : Client) : Type 0 where
  pub get_namespace : (n : String) → Leaves view (W.namespaces.get c n)
  pub create_namespace : (o : Namespace) → Leaves view (W.namespaces.create c o)
  pub create_config : (o : ConfigMap) → Leaves view (W.config_maps.create c o)
  pub get_service : (n : String) → Leaves view (W.services.get c n)
  pub create_service : (o : Objects.Service) → Leaves view (W.services.create c o)
  pub create_ingress : (o : Ingress) → Leaves view (W.ingresses.create c o)
  pub get_secret : (n : String) → Leaves view (W.secrets.get c n)
  pub create_secret : (o : Objects.Secret) → Leaves view (W.secrets.create c o)
  pub create_pod : (o : Pod) → Leaves view (W.pods.create c o)
  pub create_deployment : (o : Deployment) → Leaves view (W.deployments.create c o)
  pub watch_deployment : (o : WatchOptions) (t : ℕ) → Leaves view (W.deployments.watch c o t)

-- A view that is left alone by the calls of a client that start a pod or a deployment.
pub record Starts (W : World) {X : Type 0} (view : W.State → X) (c : Client) : Type 0 where
  pub create_pod : (o : Pod) → Leaves view (W.pods.create c o)
  pub create_deployment : (o : Deployment) → Leaves view (W.deployments.create c o)
  pub watch_deployment : (o : WatchOptions) (t : ℕ) → Leaves view (W.deployments.watch c o t)

abbrev starts_of :
    (W : World) {X : Type 0} (view : W.State → X) (c : Client) → Aside W view c → Starts W view c
starts_of W view c A = record {
  create_pod = A.create_pod;
  create_deployment = A.create_deployment;
  watch_deployment = A.watch_deployment;
}

module _ (W : World) {X : Type 0} (view : W.State → X) (c : Client) (A : Starts W view c) where
  create_pod-Keeps :
      (ns agent_id image : String) (nw : Cpi.Network) (resources : Props.Resources)
      → Keeps view (create_pod W c ns agent_id image nw resources)
  unfolding create_pod
  create_pod-Keeps ns agent_id image nw resources = search (keeps_rules, A.create_pod) depth 12

  wait_for_deployment-Keeps :
      (timeout : ℕ) (agent_id version : String)
      → Keeps view (wait_for_deployment W timeout c agent_id version)
  unfolding wait_for_deployment
  wait_for_deployment-Keeps timeout agent_id version =
      search (keeps_rules, A.watch_deployment) depth 12

  create_deployment-Keeps :
      (timeout : ℕ) (ns agent_id image : String) (props : VmCloudProperties)
      → Keeps view (create_deployment W timeout c ns agent_id image props)
  unfolding create_deployment
  create_deployment-Keeps timeout ns agent_id image props =
      search (keeps_rules, A.create_deployment, wait_for_deployment-Keeps) depth 12

  pub create_workload-Keeps :
      (v : VmCreator) (ns agent_id image : String) (nw : Cpi.Network) (props : VmCloudProperties)
      (replicas : Option ℤ)
      → Keeps view (create_workload W v c ns agent_id image nw props replicas)
  unfolding create_workload
  create_workload-Keeps v ns agent_id image nw props none =
      search (keeps_rules, create_pod-Keeps) depth 12
  create_workload-Keeps v ns agent_id image nw props (some n) =
      search (keeps_rules, create_deployment-Keeps) depth 12

module _ (W : World) {X : Type 0} (view : W.State → X) (M : Ambient W view) where
  module _ (c : Client) (A : Aside W view c) where
    created-Keeps : (ns : String) (r : Result Namespace) → Keeps view (namespace_if_absent W c ns r)
    created-Keeps ns (ok found) = search keeps_rules
    created-Keeps ns (err e) = record { at = λ s. (A.create_namespace (namespace_object ns)).at s }

    create_namespace-Keeps : (ns : String) → Keeps view (create_namespace W c ns)
    unfolding create_namespace
    create_namespace-Keeps ns = record {
      at = λ s. (created-Keeps ns _).at _ ∙ (A.get_namespace ns).at s;
    }

    create_config_map-Keeps :
        (ns agent_id : String) (settings : Agent.Settings)
        → Keeps view (create_config_map W c ns agent_id settings)
    unfolding create_config_map
    create_config_map-Keeps ns agent_id settings = search (keeps_rules, A.create_config) depth 12

    service_if_absent-Keeps :
        (service : Objects.Service) (r : Result Objects.Service)
        → Keeps view (service_if_absent W c service r)
    service_if_absent-Keeps service (ok found) = search keeps_rules
    service_if_absent-Keeps service (err e) = search (keeps_rules, A.create_service) depth 12

    kept_service-Keeps :
        (service : Objects.Service) (name : String)
        → Keeps view
            (λ s. let (r, s') = W.services.get c name s in service_if_absent W c service r s')
    kept_service-Keeps service name = record {
      at = λ s. (service_if_absent-Keeps service _).at _ ∙ (A.get_service name).at s;
    }

    create_ingress-Keeps :
        (ingress : Ingress)
        → Keeps {A = Unit {0}} view (do call (W.ingresses.create c ingress); pure tt)
    create_ingress-Keeps ingress = search (keeps_rules, A.create_ingress) depth 12

    create_service-Keeps :
        (ns agent_id : String) (svc : Props.Service)
        → Keeps view (create_service W c ns agent_id svc)
    unfolding create_service
    create_service-Keeps ns agent_id svc =
        Keeps-if _ _ _ (create_ingress-Keeps (kube_ingress ns agent_id svc))
          (kept_service-Keeps (kube_service ns agent_id svc) svc.name)

    create_services-Keeps :
        (ns agent_id : String) (services : List Props.Service)
        → Keeps view (create_services W c ns agent_id services)
    unfolding create_services
    create_services-Keeps ns agent_id [] = search keeps_rules
    create_services-Keeps ns agent_id (svc ∷ services) =
        Keeps-then _ _ (create_service-Keeps ns agent_id svc)
          (create_services-Keeps ns agent_id services)

    read_contents-Keeps :
        (entries contents : Dict String) → Keeps view (read_contents W entries contents)
    unfolding read_contents
    read_contents-Keeps [] contents = search keeps_rules
    read_contents-Keeps ((k, v) ∷ entries) contents =
        Keeps-bind _ _ (search (keeps_rules, M.read_file) depth 12)
          λ value. read_contents-Keeps entries (insert k value contents)

    secret_if_absent-Keeps :
        (ns agent_id : String) (srt : Props.Secret) (r : Result Objects.Secret)
        → Keeps view (secret_if_absent W c ns agent_id srt r)
    secret_if_absent-Keeps ns agent_id srt (ok found) = search keeps_rules
    secret_if_absent-Keeps ns agent_id srt (err e) =
        search (keeps_rules, A.create_secret, read_contents-Keeps) depth 14

    create_one-Keeps :
        (ns agent_id : String) (srt : Props.Secret) → Keeps view (create_one W c ns agent_id srt)
    unfolding create_one
    create_one-Keeps ns agent_id srt = record {
      at = λ s. (secret_if_absent-Keeps ns agent_id srt _).at _ ∙ (A.get_secret srt.name).at s;
    }

    create_secret-Keeps :
        (ns agent_id : String) (secrets : List Props.Secret)
        → Keeps view (create_secret W c ns agent_id secrets)
    unfolding create_secret
    create_secret-Keeps ns agent_id [] = search keeps_rules
    create_secret-Keeps ns agent_id (srt ∷ secrets) =
        Keeps-then _ _ (create_one-Keeps ns agent_id srt) (create_secret-Keeps ns agent_id secrets)

  -- Creating a VM, with whatever result, leaves every view of the cluster that the calls of clients
  -- of its context leave, which read and create objects of the kinds that belong to a VM and watch
  -- deployments, and that reading files leaves. The claims of disks are such a view, and what other
  -- clusters hold.
  pub create-Keeps :
      (v : VmCreator) (agent_id image : String) (props : VmCloudProperties) (networks : Networks)
      (disk_cids : List String) (env : String) (s : W.State)
      → ((t : W.State) (c : Client) → (W.new_client props.context t).0 ≡ ok c → Aside W view c)
      → view (create W v agent_id image props networks disk_cids env s).1 ≡ view s
  unfolding create
  create-Keeps v agent_id image props networks disk_cids env s aside =
      let whole : Keeps view (create W v agent_id image props networks disk_cids env) =
        Keeps-bind _ _ (search keeps_rules) λ nw.
          Keeps-call-bind _ _ _ (M.new_client props.context) λ t c found.
            let A = aside t c found in
            search
              (
                keeps_rules,
                create_namespace-Keeps c A,
                create_config_map-Keeps c A,
                create_services-Keeps c A,
                create_secret-Keeps c A,
                create_workload-Keeps W view c (starts_of W view c A),
              )
              depth 30 in
      whole.at s
