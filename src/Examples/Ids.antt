-- ===== src/Examples/Ids.antt =====
-- The ids of VMs, and what a cloud property or an API object must be.
use kubernetes_cpi.Base.{◌≡◌, ◌↔◌, false, none, some, []}
use kubernetes_cpi.Exec.{returns}
use kubernetes_cpi.Cid.{new_vmcid, parse_vmcid}
use kubernetes_cpi.Cid.Laws.{has_colon, parse_vmcid_iff}
use kubernetes_cpi.Kube.Objects.{Deployment, pos}
use kubernetes_cpi.Actions.CreateVm.Props
use kubernetes_cpi.Actions.CreateVm.Pods.{agent_deployment}

parse_vmcid_iff_example :
    (parse_vmcid "ctx:a:b" ≡ returns ("ctx", "a:b"))
    ↔ ((new_vmcid "ctx" "a:b" ≡ "ctx:a:b") × (has_colon "ctx" ≡ false))
parse_vmcid_iff_example = parse_vmcid_iff "ctx:a:b" "ctx" "a:b"

abbrev deployment : Deployment
deployment =
    agent_deployment "bosh" "a" "stemcell" (some (pos 2))
      (record { limits = none; requests = none })

abbrev web : Props.Service
web = record {
  name = "web";
  service_type = "LoadBalancer";
  cluster_ip = "";
  ports = [];
  selector = none;
  load_balancer_ip = "10.0.0.9";
  external_ips = [];
  backend = none;
  tls = [];
  rules = [];
}
