-- ===== src/Actions/CreateVm/Pods.antt =====
-- actions/create_vm.go: `createPod`, `createDeployment`, `waitForDeployment` and
-- `isDeploymentReady`.
use kubernetes_cpi.Base.{
  ℕ, String, ◌<>◌, Bool, true, false, not, Option, none, some, [], ◌∷◌, Dict, leb, nat_eq, ◌==◌,
  if◌then◌else◌,
}
use kubernetes_cpi.Exec.{
  Outcome, returns, panics, of_result, Exec, pure, lift, call, wrapping, ◌>>=◌, ◌>>◌,
}
use kubernetes_cpi.Cpi
use kubernetes_cpi.Kube.Objects.{
  ℤ, pos, negsuc, PodSpec, Pod, Deployment, ResourceRequirements, config_map, empty_dir,
}
use kubernetes_cpi.Kube.Watch.{watch_loop}
use kubernetes_cpi.Kube.World.{World, Client}
use kubernetes_cpi.Actions.Names.{agent_id_label, agent_name, bosh_job, ip_address}
use kubernetes_cpi.Actions.CreateVm.Props.{Resources, VmCloudProperties}
use kubernetes_cpi.Actions.CreateVm.Resources.{get_pod_resource_requirements}
use kubernetes_cpi.Actions.CreateVm.Services.{agent_meta}

-- The spec of the agent's pod, which the source writes out in `createPod` and `createDeployment`.
unfoldable pub agent_pod_spec : String → String → ResourceRequirements → PodSpec
agent_pod_spec agent_id image resource_reqs = record {
  hostname = agent_id;
  containers =
      record {
        name = bosh_job;
        image = image;
        image_pull_policy = "Always";
        command = "/usr/sbin/runsvdir-start" ∷ [];
        args = [];
        resources = resource_reqs;
        privileged = some true;
        run_as_user = some (pos 0);
        volume_mounts =
            record {
              name = "bosh-config";
              mount_path = "/var/vcap/bosh/instance_settings.json";
              sub_path = "instance_settings.json";
            }
            ∷ record { name = "bosh-ephemeral"; mount_path = "/var/vcap/data"; sub_path = "" }
            ∷ [];
        rest = "";
      }
      ∷ [];
  volumes =
      record {
        name = "bosh-config";
        source =
            config_map (agent_name agent_id) (("instance_settings", "instance_settings.json") ∷ []);
      }
      ∷ record { name = "bosh-ephemeral"; source = empty_dir }
      ∷ [];
  rest = "";
}

unfoldable pub address_annotations : Cpi.Network → Dict String
address_annotations network = if not (network.ip == "") then (ip_address, network.ip) ∷ [] else []

unfoldable pub agent_pod : String → String → String → Cpi.Network → ResourceRequirements → Pod
unfolding agent_pod_spec address_annotations
agent_pod ns agent_id image network resource_reqs = record {
  meta = agent_meta (agent_name agent_id) ns agent_id (some (address_annotations network));
  spec = agent_pod_spec agent_id image resource_reqs;
  status = record { phase = ""; pod_ip = ""; container_statuses = []; rest = "" };
}

-- The deployment has no annotations, and labels in its template alone.
unfoldable pub agent_deployment :
    String → String → String → Option ℤ → ResourceRequirements → Deployment
unfolding agent_pod_spec
agent_deployment ns agent_id image replicas resource_reqs = record {
  meta = record {
    name = agent_name agent_id;
    namespace = ns;
    labels = none;
    annotations = none;
    resource_version = "";
    generation = 0;
    rest = "";
  };
  replicas = replicas;
  template_labels = some ((agent_id_label, agent_id) ∷ []);
  template = agent_pod_spec agent_id image resource_reqs;
  progress_deadline_seconds = some (pos 30);
  observed_generation = 0;
  available_replicas = pos 0;
}

abbrev pub int_eq : ℤ → ℤ → Bool
int_eq (pos m) (pos n) = nat_eq m n
int_eq (negsuc m) (negsuc n) = nat_eq m n
int_eq _ _ = false

-- *deployment.Spec.Replicas
abbrev pub enough_replicas : ℤ → Option ℤ → Outcome Bool
enough_replicas available none = panics "invalid memory address or nil pointer dereference"
enough_replicas available (some replicas) = returns (int_eq available replicas)

unfoldable pub is_deployment_ready : Deployment → Outcome Bool
is_deployment_ready d =
    if leb d.meta.generation d.observed_generation
    then enough_replicas d.available_replicas d.replicas
    else returns false

module _ (W : World) where
  unfoldable pub create_pod :
      Client → String → String → String → Cpi.Network → Resources → Exec W.State Pod
  unfolding agent_pod get_pod_resource_requirements
  create_pod client ns agent_id image network resources = do
    resource_reqs ←
        wrapping "Getting pod resource requirements"
          (lift (get_pod_resource_requirements W.parse_quantity resources))
    call (W.pods.create client (agent_pod ns agent_id image network resource_reqs))

  unfoldable pub wait_for_deployment : ℕ → Client → String → String → Exec W.State (Unit {0})
  unfolding watch_loop is_deployment_ready
  wait_for_deployment timeout client agent_id resource_version = do
    selector ←
        wrapping "Parsing disk selector"
          (lift (of_result (W.parse_selector (agent_id_label <> "=" <> agent_id))))
    signals ← wrapping "Watching deployment" (
        call (
          W.deployments.watch client
            (record { label_selector = selector; resource_version = resource_version }) timeout))
    lift (
        watch_loop is_deployment_ready "Unexpected deployment watch event: %s"
          "Deployment creation failed with a timeout." signals)

  unfoldable pub create_deployment :
      ℕ → Client → String → String → String → VmCloudProperties → Exec W.State Deployment
  unfolding agent_deployment get_pod_resource_requirements wait_for_deployment
  create_deployment timeout client ns agent_id image cloud_props = do
    resource_reqs ← lift (get_pod_resource_requirements W.parse_quantity cloud_props.resources)
    deployment ← wrapping "Creating deployment" (
        call (
          W.deployments.create client
            (agent_deployment ns agent_id image cloud_props.replicas resource_reqs)))
    wrapping "Waiting for deployment"
        (wait_for_deployment timeout client agent_id deployment.meta.resource_version)
    pure deployment
