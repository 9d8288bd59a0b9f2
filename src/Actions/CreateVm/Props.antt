-- ===== src/Actions/CreateVm/Props.antt =====
-- actions/create_vm.go: the cloud properties of a VM.
use kubernetes_cpi.Base.{String, Option, List, Dict}
use kubernetes_cpi.Kube.Objects.{ℤ, Foreign}

pub record Port : Type 0 where
  pub name : String
  pub node_port : ℤ
  pub port : ℤ
  pub protocol : String
  pub target_port : ℤ

pub record Service : Type 0 where
  pub name : String
  pub service_type : String
  pub cluster_ip : String
  pub ports : List Port
  pub selector : Option (Dict String)
  pub load_balancer_ip : String
  pub external_ips : List String
  pub backend : Option Foreign
  pub tls : List Foreign
  pub rules : List Foreign

pub record Secret : Type 0 where
  pub name : String
  pub secret_type : String
  pub annotations : Option (Dict String)
  pub contents : Option (Dict String)
  pub string_data : Option (Dict String)

-- ResourceList maps a resource's name to a quantity's text; none is the nil map.
pub record Resources : Type 0 where
  pub limits : Option (Dict String)
  pub requests : Option (Dict String)

pub record VmCloudProperties : Type 0 where
  pub context : String
  pub services : List Service
  pub secrets : List Secret
  pub resources : Resources
  pub replicas : Option ℤ
