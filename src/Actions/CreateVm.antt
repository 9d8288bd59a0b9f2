-- ===== src/Actions/CreateVm.antt =====
-- actions/create_vm.go: `Create` and its first steps; the others are in the modules below.
pub mod Props
pub mod Resources
pub mod Services
pub mod Secrets
pub mod Pods
pub mod Progress
pub mod Leftover
pub mod Kept
pub mod Agreed
pub mod Found
pub mod Views
pub mod Checks
use kubernetes_cpi.Base.{
  ℕ, zero, suc, String, Bool, true, false, Option, none, some, List, [], ◌∷◌, Dict, insert,
  if◌then◌else◌,
}
use kubernetes_cpi.Exec.{
  Error, status, already_exists, Result, ok, err, Outcome, returns, fails, of_result, errorf,
  wrap_with, and_then, Exec, pure, fail, lift, call, wrapping, ◌>>=◌, ◌>>◌,
}
use kubernetes_cpi.Agent
use kubernetes_cpi.Cpi
use kubernetes_cpi.Cpi.{Networks, remarshal}
use kubernetes_cpi.Cid.{new_vmcid}
use kubernetes_cpi.Kube.Objects.{ℤ, pos, negsuc, Namespace, ConfigMap}
use kubernetes_cpi.Kube.World.{World, Client}
use kubernetes_cpi.Actions.Names.{agent_name}
use Props.{VmCloudProperties}
use Services.{agent_meta, create_services}
use Secrets.{create_secret}
use Pods.{create_pod, create_deployment}

-- config.Agent
pub record AgentConfig : Type 0 where
  pub blobstore : String
  pub message_bus : String
  pub ntp_servers : List String

pub record VmCreator : Type 0 where
  pub agent_config : AgentConfig
  pub deployment_ready_timeout : ℕ

unfoldable pub get_network : Networks → Outcome Cpi.Network
get_network [] = fails (errorf "a network is required" [])
get_network ((name, nw) ∷ []) = returns nw
get_network (a ∷ b ∷ rest) = fails (errorf "multiple networks not supported" [])

unfoldable pub agent_networks : Networks → Dict Agent.Network → Outcome (Dict Agent.Network)
unfolding remarshal
agent_networks [] networks = returns networks
agent_networks ((name, cpi_network) ∷ rest) networks =
    and_then (wrap_with "Remarshalling network" (of_result (remarshal cpi_network)))
      λ nw. agent_networks rest (insert name (record nw { preconfigured = true }) networks)

unfoldable pub instance_settings : AgentConfig → String → Networks → String → Outcome Agent.Settings
unfolding agent_networks
instance_settings agent_config agent_id networks env = and_then (agent_networks networks []) λ nws.
    returns (record {
      blobstore = agent_config.blobstore;
      message_bus = agent_config.message_bus;
      ntp_servers = agent_config.ntp_servers;
      agent_id = agent_id;
      vm = record { name = agent_id };
      env = env;
      networks = some nws;
      disks = record { persistent = none };
    })

unfoldable pub agent_config_map : String → String → String → ConfigMap
agent_config_map ns agent_id instance_json = record {
  meta = agent_meta (agent_name agent_id) ns agent_id none;
  contents = some (("instance_settings", instance_json) ∷ []);
}

-- An error that says that the namespace is there already counts as done.
abbrev pub created : Result Namespace → Outcome (Unit {0})
created (ok namespace) = returns tt
created (err (status already_exists code message)) = returns tt
created (err e) = fails e

unfoldable pub namespace_object : String → Namespace
namespace_object name = record {
  meta = record {
    name = name;
    namespace = "";
    labels = none;
    annotations = none;
    resource_version = "";
    generation = 0;
    rest = "";
  };
}

-- *replicas >= 1
abbrev pub at_least_one : ℤ → Bool
at_least_one (pos zero) = false
at_least_one (pos (suc n)) = true
at_least_one (negsuc n) = false

module _ (W : World) where
  abbrev pub namespace_if_absent : Client → String → Result Namespace → Exec W.State (Unit {0})
  namespace_if_absent client namespace (ok found) = pure tt
  namespace_if_absent client namespace (err e) = λ s.
      let (r, s') = W.namespaces.create client (namespace_object namespace) s in (created r, s')

  unfoldable pub create_namespace : Client → String → Exec W.State (Unit {0})
  unfolding namespace_object
  create_namespace client namespace s =
      let (r, s') = W.namespaces.get client namespace s in namespace_if_absent client namespace r s'

  unfoldable pub create_config_map :
      Client → String → String → Agent.Settings → Exec W.State ConfigMap
  unfolding agent_config_map
  create_config_map client ns agent_id settings = do
    instance_json ←
        wrapping "Marshalling instance settings" (lift (of_result (W.marshal_settings settings)))
    call (W.config_maps.create client (agent_config_map ns agent_id instance_json))

  -- The pod, or with a number of replicas the deployment.
  unfoldable pub create_workload :
      VmCreator
      → Client
      → String
      → String
      → String
      → Cpi.Network
      → VmCloudProperties
      → Option ℤ
      → Exec W.State (Unit {0})
  unfolding create_pod create_deployment
  create_workload v client ns agent_id image network cloud_props none = do
    wrapping "Creating pod" (create_pod W client ns agent_id image network cloud_props.resources)
    pure tt
  create_workload v client ns agent_id image network cloud_props (some replicas) =
      if at_least_one replicas
      then (do
        wrapping "Creating deployment"
            (create_deployment W v.deployment_ready_timeout client ns agent_id image cloud_props)
        pure tt)
      else fail (errorf "Invalid number of Replicas specified in Cloud Properties" [])

  unfoldable pub create :
      VmCreator
      → String
      → String
      → VmCloudProperties
      → Networks
      → List String
      → String
      → Exec W.State String
  unfolding get_network create_namespace instance_settings create_config_map create_services
      create_secret create_workload new_vmcid
  create v agent_id stemcell_cid cloud_props networks disk_cids env = do
    network ← wrapping "Getting network" (lift (get_network networks))
    client ← wrapping "Creating client" (call (W.new_client cloud_props.context))
    wrapping "Creating namespace" (create_namespace client client.namespace)
    let ns = client.namespace
    settings ←
        wrapping "Creating instance settings"
          (lift (instance_settings v.agent_config agent_id networks env))
    wrapping "Creating config map" (create_config_map client ns agent_id settings)
    wrapping "Creating services" (create_services W client ns agent_id cloud_props.services)
    wrapping "Creating secret" (create_secret W client ns agent_id cloud_props.secrets)
    create_workload v client ns agent_id stemcell_cid network cloud_props cloud_props.replicas
    pure (new_vmcid client.context agent_id)
