-- ===== src/Examples/Vms.antt =====
-- Creating a VM, deleting it and listing its disks.
use kubernetes_cpi.Base.{
  ◌↔◌, String, ◌≡◌, refl, ap, none, some, [], ◌∷◌, Dict, lookup, insert, erase,
}
use kubernetes_cpi.Exec.{Exec, returns, Result, ok, ◌>>=◌}
use kubernetes_cpi.Cpi
use kubernetes_cpi.Exec.Returns.{Runs}
use kubernetes_cpi.Cid.{split_n, parse_vmcid, new_vmcid, new_disk_cid}
use kubernetes_cpi.Kube.Objects.{PersistentVolumeClaim, Deployment}
use kubernetes_cpi.Kube.World.{Client}
use kubernetes_cpi.Kube.Memory.{Cluster}
use kubernetes_cpi.Kube.Memory.Serves.{
  get_by-state, delete_by-apart, pods_of, put_pods, pod_name, configs_of, put_configs, config_name,
}
use kubernetes_cpi.Actions.Vms.{delete_vm, get_disks}
use kubernetes_cpi.Actions.Vms.Progress.{Removed, delete_vm_iff}
use kubernetes_cpi.Actions.Vms.Gone.{Deleted, delete_vm-success}
use kubernetes_cpi.Actions.Vms.Deletion.{Outside, delete_vm-Keeps}
use kubernetes_cpi.Actions.Vms.GetDisks.{AllReadable, get_disks-eq}
use kubernetes_cpi.Actions.CreateVm.{VmCreator, create}
use kubernetes_cpi.Actions.CreateVm.Props.{VmCloudProperties}
use kubernetes_cpi.Actions.CreateVm.Props
use kubernetes_cpi.Actions.CreateVm.Progress.{VmMade, create_iff}
use kubernetes_cpi.Examples.Deletions.{deletes, services_of, put_services, service_name}
use kubernetes_cpi.Examples.Fixtures.{
  pod_signals, claim_signals, at_rest, world, client, start, attached, claim, pod_with_disk,
}

delete_runs : (delete_vm world "ctx:a" start).0 ≡ returns tt
unfolding delete_vm ◌>>=◌ lookup erase split_n
delete_runs = refl

delete_vm-success_example :
    Deleted world
      (deletes pod_signals claim_signals [])
      "ctx:a"
      start
      (delete_vm world "ctx:a" start).1
delete_vm-success_example =
    delete_vm-success world (deletes pod_signals claim_signals []) "ctx:a" start
      (delete_vm world "ctx:a" start).1 delete_runs refl

abbrev deployments_of : Cluster → Dict Deployment
deployments_of s = s.deployments

outside : {c : Client} → Outside world deployments_of c
outside = record {
  delete_pod = λ n g. record {
    at = λ s.
        delete_by-apart pods_of put_pods pod_name pod_signals deployments_of (λ s m. refl)
          (lookup n s.pods) n s;
  };
  list_services = λ l. record { at = λ s. refl };
  delete_service = λ n g. record {
    at = λ s.
        delete_by-apart services_of put_services service_name [] deployments_of (λ s m. refl)
          (lookup n s.services) n s;
  };
  delete_config = λ n g. record {
    at = λ s.
        delete_by-apart configs_of put_configs config_name [] deployments_of (λ s m. refl)
          (lookup n s.config_maps) n s;
  };
}

delete_vm-Keeps_example : deployments_of (delete_vm world "ctx:a" start).1 ≡ deployments_of start
delete_vm-Keeps_example =
    delete_vm-Keeps world deployments_of (at_rest deployments_of (λ n s. refl)) "ctx:a" start
      λ x a t c parsed made. outside

abbrev pub creator : VmCreator
creator = record {
  agent_config = record { blobstore = ""; message_bus = "nats"; ntp_servers = [] };
  deployment_ready_timeout = 30;
}

abbrev pub network : Cpi.Network
network = record {
  network_type = "dynamic";
  ip = "";
  netmask = "";
  gateway = "";
  dns = [];
  default = [];
  cloud_properties = "";
}

abbrev pub properties : VmCloudProperties
properties = record {
  context = "ctx";
  services = [];
  secrets = [];
  resources = record { limits = some (("memory", "1Gi") ∷ []); requests = none };
  replicas = none;
}

pub create_runs :
    (create world creator "b" "stemcell" properties (("private", network) ∷ []) [] "{}" start).0
    ≡ returns (new_vmcid "ctx" "b")
unfolding create ◌>>=◌ lookup insert
create_runs = refl

-- A VM with a service, an ingress and a secret, one value of which is read from a file.
abbrev web : String → String → Props.Service
web name service_type = record {
  name = name;
  service_type = service_type;
  cluster_ip = "";
  ports = [];
  selector = none;
  load_balancer_ip = "";
  external_ips = [];
  backend = none;
  tls = [];
  rules = [];
}

abbrev registry : Props.Secret
registry = record {
  name = "registry";
  secret_type = "DockerCfg";
  annotations = none;
  contents = some ((".dockercfg", "/etc/docker") ∷ ("user", "bosh") ∷ []);
  string_data = none;
}

abbrev with_services : VmCloudProperties
with_services = record properties {
  services = web "web" "ClusterIP" ∷ web "api" "NodePort" ∷ web "front" "Ingress" ∷ [];
  secrets = registry ∷ [];
}

abbrev creates : Exec Cluster String
creates = create world creator "b" "stemcell" with_services (("private", network) ∷ []) [] "{}"

created_all : (creates start).0 ≡ returns (new_vmcid "ctx" "b")
unfolding create ◌>>=◌ lookup insert
created_all = refl

create_iff_example :
    Runs creates start (new_vmcid "ctx" "b") (creates start).1
    ↔ VmMade world creator "b" "stemcell" with_services
        (("private", network) ∷ [])
        []
        "{}"
        start
        (new_vmcid "ctx" "b")
        (creates start).1
create_iff_example =
    create_iff world creator "b" "stemcell" with_services (("private", network) ∷ []) [] "{}" start
      (new_vmcid "ctx" "b") (creates start).1

abbrev claims_of : Cluster → Dict PersistentVolumeClaim
claims_of s = s.claims

abbrev put_claims : Cluster → Dict PersistentVolumeClaim → Cluster
put_claims s m = record s { claims = m }

abbrev claim_name : PersistentVolumeClaim → String
claim_name claim = claim.meta.name

-- The answer of the cluster to a reading of a claim.
abbrev claim_in : String → Result PersistentVolumeClaim
claim_in name = (world.claims.get client name attached).0

reads : (name : String) → world.claims.get client name attached ≡ (claim_in name, attached)
reads name =
    ap (λ (t : Cluster). (claim_in name, t))
      (get_by-state claims_of put_claims claim_name claim_signals (lookup name attached.claims) name
        attached)

vm_parsed : parse_vmcid "ctx:a" ≡ returns ("ctx", "a")
unfolding parse_vmcid split_n
vm_parsed = refl

pod_found : world.pods.get client "agent-a" attached ≡ (ok pod_with_disk, attached)
unfolding lookup
pod_found = refl

all_readable : AllReadable world client attached claim_in reads pod_with_disk.spec.volumes
unfolding lookup
all_readable = (tt, tt)

get_disks-eq_example : get_disks world "ctx:a" attached ≡ (returns ("ctx:d" ∷ []), attached)
unfolding lookup new_disk_cid
get_disks-eq_example =
    get_disks-eq world "ctx:a" attached attached attached claim_in reads vm_parsed refl pod_found
      all_readable

-- Nothing is left of the VM, and it is deleted again.
abbrev gone : Cluster
gone = (delete_vm world "ctx:a" start).1

delete_vm_iff_example :
    Runs (delete_vm world "ctx:a") gone tt gone ↔ Removed world "ctx:a" gone gone
delete_vm_iff_example = delete_vm_iff world "ctx:a" gone gone

deleted_again : delete_vm world "ctx:a" gone ≡ (returns tt, gone)
unfolding delete_vm ◌>>=◌ lookup erase split_n
deleted_again = refl
