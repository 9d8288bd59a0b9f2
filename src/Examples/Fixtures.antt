-- ===== src/Examples/Fixtures.antt =====
-- A small cluster: an agent "a" in the context "ctx", with its pod, its config map and a service, and
-- the claim of a disk "d".
use kubernetes_cpi.Base.{ℕ, ◌≡◌, refl, String, true, false, Option, none, some, List, [], ◌∷◌, Dict}
use kubernetes_cpi.Kube.Objects.{
  ObjectMeta, Container, PodSpec, ContainerStatus, Pod, ConfigMap, PersistentVolumeClaim, Service,
  Volume,
}
use kubernetes_cpi.Kube.Watch.{this, modified, Signal, event, timer}
use kubernetes_cpi.Kube.World.{World, Client}
use kubernetes_cpi.Kube.Spares.{Ambient}
use kubernetes_cpi.Kube.Memory.{Cluster, empty, memory}
use kubernetes_cpi.Actions.Names.{agent_id_label, disk_id_label, bosh_job}
use kubernetes_cpi.Actions.Volumes.{disk_volume}
use kubernetes_cpi.Actions.VolumeManager.{VolumeManager, no_status}

abbrev pub meta_of : String → Option (Dict String) → ObjectMeta
meta_of name labels = record {
  name = name;
  namespace = "bosh";
  labels = labels;
  annotations = none;
  resource_version = "1";
  generation = 0;
  rest = "";
}

abbrev pub container : String → Container
container name = record {
  name = name;
  image = "stemcell";
  image_pull_policy = "Always";
  command = [];
  args = [];
  resources = record { limits = none; requests = none };
  privileged = none;
  run_as_user = none;
  volume_mounts = [];
  rest = "";
}

abbrev pub spec : List Volume → PodSpec
spec volumes = record {
  hostname = "a";
  containers = container "log" ∷ container bosh_job ∷ [];
  volumes = volumes;
  rest = "";
}

abbrev pub pod : Pod
pod = record {
  meta = meta_of "agent-a" (some ((agent_id_label, "a") ∷ []));
  spec = spec [];
  status = record no_status { pod_ip = "10.0.0.7" };
}

abbrev pub pod_with_disk : Pod
pod_with_disk = record pod { spec = spec (disk_volume "d" ∷ []) }

abbrev pub job_status : ContainerStatus
job_status = record { name = bosh_job; ready = true; running = true }

abbrev pub ready_pod : Pod
ready_pod = record pod {
  status = record {
    phase = "Running";
    pod_ip = "10.0.0.7";
    container_statuses = record { name = "log"; ready = false; running = false } ∷ job_status ∷ [];
    rest = "";
  };
}

abbrev pub pod_signals : List (Signal Pod)
pod_signals =
    event (record { kind = modified; object = this pod })
    ∷ event (record { kind = modified; object = this ready_pod })
    ∷ timer
    ∷ []

abbrev pub claim : PersistentVolumeClaim
claim = record {
  meta = meta_of "disk-d" (some ((disk_id_label, "d") ∷ []));
  access_modes = "ReadWriteOnce" ∷ [];
  resources = record { limits = none; requests = none };
  phase = "Bound";
}

abbrev pub claim_signals : List (Signal PersistentVolumeClaim)
claim_signals = event (record { kind = modified; object = this claim }) ∷ []

abbrev pub config_map : ConfigMap
config_map = record {
  meta = meta_of "agent-a" none;
  contents = some (("instance_settings", "a") ∷ []);
}

abbrev pub service : Service
service = record {
  meta = meta_of "web" (some ((agent_id_label, "a") ∷ []));
  service_type = "ClusterIP";
  cluster_ip = "";
  ports = [];
  external_ips = [];
  load_balancer_ip = "";
  selector = none;
}

abbrev pub world : World
world = memory pod_signals claim_signals []

abbrev pub client : Client
client = record { context = "ctx"; namespace = "bosh"; clientset = "ctx" }

abbrev pub start : Cluster
start = record empty {
  pods = ("agent-a", pod) ∷ [];
  config_maps = ("agent-a", config_map) ∷ [];
  claims = ("disk-d", claim) ∷ [];
  services = ("web", service) ∷ [];
}

-- The same with the disk attached to the pod.
abbrev pub attached : Cluster
attached = record start { pods = ("agent-a", pod_with_disk) ∷ [] }

abbrev pub manager : VolumeManager
manager = record { pod_ready_timeout = 30; post_recreate_delay = 5 }

-- What is left by anything but the clock is left by what goes to no cluster.
pub at_rest :
    {X : Type 0} (view : Cluster → X)
    → ((n : ℕ) (s : Cluster) → view (world.sleep n s) ≡ view s)
    → Ambient world view
at_rest view clock = record {
  new_client = λ x. record { at = λ s. refl };
  read_file = λ path. record { at = λ s. refl };
  sleep = clock;
}
