-- ===== src/Kube/Memory.antt =====
-- A cluster in memory with one namespace, to run the actions on.
pub mod Serves
use kubernetes_cpi.Base.{
  ℕ, ◌+◌, String, ◌<>◌, Bool, true, false, Option, none, some, List, [], ◌∷◌, Dict, lookup, insert,
  erase, ◌==◌, if◌then◌else◌,
}
use kubernetes_cpi.Exec.{
  status, StatusReason, not_found, already_exists, foreign, Result, ok, err, Call,
}
use kubernetes_cpi.Agent.{Settings}
use kubernetes_cpi.Kube.Objects.{
  ObjectMeta, Pod, ConfigMap, PersistentVolumeClaim, Service, Ingress, Secret, Namespace,
  Deployment, ℤ, pos,
}
use kubernetes_cpi.Kube.Watch.{Signal}
use kubernetes_cpi.Kube.World.{Client, Resource, World}

pub record Cluster : Type 0 where
  pub pods : Dict Pod
  pub config_maps : Dict ConfigMap
  pub claims : Dict PersistentVolumeClaim
  pub services : Dict Service
  pub ingresses : Dict Ingress
  pub secrets : Dict Secret
  pub namespaces : Dict Namespace
  pub deployments : Dict Deployment
  pub slept : ℕ
  -- what was printed, the last text first
  pub printed : List String

abbrev pub empty : Cluster
empty = record {
  pods = [];
  config_maps = [];
  claims = [];
  services = [];
  ingresses = [];
  secrets = [];
  namespaces = [];
  deployments = [];
  slept = 0;
  printed = [];
}

abbrev pub values {ℓ} : {V : Type ℓ} → Dict V → List V
values [] = []
values ((k, v) ∷ m) = v ∷ values m

abbrev missing {ℓ} : {A : Type ℓ} → String → Result A
missing name = err (status not_found 404 (name <> " not found"))

-- The objects of one kind, by name; `signals` is what any watch of them receives.
module _ {Obj : Type 0} (objects : Cluster → Dict Obj) (put : Cluster → Dict Obj → Cluster)
    (name_of : Obj → String) (signals : List (Signal Obj)) where
  abbrev pub get_by : Option Obj → String → Cluster → Result Obj × Cluster
  get_by none name s = (missing name, s)
  get_by (some o) name s = if name_of o == name then (ok o, s) else (missing name, s)

  abbrev pub create_by : Option Obj → Obj → Cluster → Result Obj × Cluster
  create_by none o s = (ok o, put s (insert (name_of o) o (objects s)))
  create_by (some found) o s = (err (status already_exists 409 "already exists"), s)

  abbrev pub update_by : Option Obj → Obj → Cluster → Result Obj × Cluster
  update_by none o s = (missing (name_of o), s)
  update_by (some found) o s = (ok o, put s (insert (name_of o) o (objects s)))

  abbrev pub delete_by : Option Obj → String → Cluster → Result (Unit {0}) × Cluster
  delete_by none name s = (missing name, s)
  delete_by (some found) name s = (ok tt, put s (erase name (objects s)))

  abbrev table : Resource Cluster Obj
  table = record {
    get = λ c name s. get_by (lookup name (objects s)) name s;
    create = λ c o s. create_by (lookup (name_of o) (objects s)) o s;
    update = λ c o s. update_by (lookup (name_of o) (objects s)) o s;
    delete = λ c name grace s. delete_by (lookup name (objects s)) name s;
    list = λ c selector s. (ok (values (objects s)), s);
    watch = λ c options timeout s. (ok signals, s);
  }

abbrev pub settings_of : String → Settings
settings_of text = record {
  agent_id = text;
  disks = record { persistent = none };
  networks = none;
  message_bus = "";
  ntp_servers = [];
  vm = record { name = text };
  blobstore = "";
  env = "";
}

-- A text stands for the settings of the agent that it names.
abbrev read_settings : String → Result Settings
read_settings text =
    if text == "" then err (foreign "unexpected end of JSON input") else ok (settings_of text)

-- Keys and values are complained about if they are "bad".
abbrev complain : String → List String
complain text = if text == "bad" then "is bad" ∷ [] else []

-- The server starts with no object but what the state holds; a pod, a claim and a deployment each
-- give the signals of the arguments.
abbrev pub memory :
    List (Signal Pod) → List (Signal PersistentVolumeClaim) → List (Signal Deployment) → World
memory pod_signals claim_signals deployment_signals = record {
  State = Cluster;
  new_client =
      λ context s. (ok (record { context = context; namespace = "bosh"; clientset = context }), s);
  pods = table (λ s. s.pods) (λ s m. record s { pods = m }) (λ o. o.meta.name) pod_signals;
  config_maps =
      table (λ s. s.config_maps) (λ s m. record s { config_maps = m }) (λ o. o.meta.name) [];
  claims = table (λ s. s.claims) (λ s m. record s { claims = m }) (λ o. o.meta.name) claim_signals;
  services = table (λ s. s.services) (λ s m. record s { services = m }) (λ o. o.meta.name) [];
  ingresses = table (λ s. s.ingresses) (λ s m. record s { ingresses = m }) (λ o. o.meta.name) [];
  secrets = table (λ s. s.secrets) (λ s m. record s { secrets = m }) (λ o. o.meta.name) [];
  namespaces = table (λ s. s.namespaces) (λ s m. record s { namespaces = m }) (λ o. o.meta.name) [];
  deployments =
      table (λ s. s.deployments) (λ s m. record s { deployments = m }) (λ o. o.meta.name)
        deployment_signals;
  patch_pod = λ c name patch s. (missing name, s);
  sleep = λ n s. record s { slept = s.slept + n };
  read_file = λ path s. (ok ("content of " <> path), s);
  parse_selector = λ text. ok text;
  is_qualified_name = complain;
  is_valid_label_value = complain;
  parse_quantity = λ text. ok text;
  lower_unicode = λ c. c;
  marshal_settings = λ settings. ok settings.agent_id;
  unmarshal_settings = read_settings;
  marshal_pod = λ pod. ok pod.meta.name;
  create_patch = λ old new pod. ok (old <> new);
}
