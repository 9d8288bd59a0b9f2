-- ===== src/Actions/CreateVm/Services.antt =====
-- actions/create_vm.go: `createServices`. The lock of each round is a fresh one that nobody else
-- holds, so it orders nothing and is left out.
use kubernetes_cpi.Base.{
  String, not, ◌&&◌, Option, none, some, List, [], ◌∷◌, map, Dict, dict_of, ◌==◌, if◌then◌else◌,
}
use kubernetes_cpi.Exec.{Result, ok, err, Exec, pure, call, wrapping, ◌>>◌}
use kubernetes_cpi.Text.{is_empty}
use kubernetes_cpi.Kube.Objects
use kubernetes_cpi.Kube.Objects.{ObjectMeta, ServicePort, Ingress, from_int}
use kubernetes_cpi.Kube.World.{World, Client}
use kubernetes_cpi.Actions.Names.{agent_id_label}
use kubernetes_cpi.Actions.CreateVm.Props

unfoldable pub kube_service_type : String → String
kube_service_type t =
    if t == "NodePort"
    then "NodePort"
    else if t == "LoadBalancer"
    then "LoadBalancer"
    else "ClusterIP"

unfoldable pub service_port : Props.Port → ServicePort
service_port p = record {
  name = p.name;
  protocol = p.protocol;
  port = p.port;
  node_port = p.node_port;
  target_port = from_int p.target_port;
}

-- The metadata of an object that belongs to the agent.
abbrev pub agent_meta : String → String → String → Option (Dict String) → ObjectMeta
agent_meta name ns agent_id annotations = record {
  name = name;
  namespace = ns;
  labels = some ((agent_id_label, agent_id) ∷ []);
  annotations = annotations;
  resource_version = "";
  generation = 0;
  rest = "";
}

unfoldable pub kube_service : String → String → Props.Service → Objects.Service
unfolding kube_service_type service_port
kube_service ns agent_id svc =
    let service_type = kube_service_type svc.service_type in
    record {
      meta = agent_meta svc.name ns agent_id none;
      service_type = service_type;
      cluster_ip = svc.cluster_ip;
      ports = map service_port svc.ports;
      external_ips = svc.external_ips;
      load_balancer_ip =
          if service_type == "LoadBalancer" && not (svc.load_balancer_ip == "")
          then svc.load_balancer_ip
          else "";
      selector =
          if not (is_empty (dict_of svc.selector))
          then svc.selector
          else some ((agent_id_label, agent_id) ∷ []);
    }

unfoldable pub kube_ingress : String → String → Props.Service → Ingress
kube_ingress ns agent_id svc = record {
  meta = agent_meta svc.name ns agent_id none;
  backend = svc.backend;
  tls = svc.tls;
  rules = svc.rules;
}

module _ (W : World) where
  abbrev pub service_if_absent :
      Client → Objects.Service → Result Objects.Service → Exec W.State (Unit {0})
  service_if_absent client service (ok found) = pure tt
  service_if_absent client service (err e) = do
    wrapping "Creating service" (call (W.services.create client service))
    pure tt

  -- One round of the loop. A service whose name is taken is left as it is.
  unfoldable pub create_service : Client → String → String → Props.Service → Exec W.State (Unit {0})
  unfolding kube_service kube_ingress
  create_service client ns agent_id svc =
      if svc.service_type == "Ingress"
      then (do call (W.ingresses.create client (kube_ingress ns agent_id svc)); pure tt)
      else (λ s.
          let (r, s') = W.services.get client svc.name s in
          service_if_absent client (kube_service ns agent_id svc) r s')

  unfoldable pub create_services :
      Client → String → String → List Props.Service → Exec W.State (Unit {0})
  unfolding create_service
  create_services client ns agent_id [] = pure tt
  create_services client ns agent_id (svc ∷ services) = do
    create_service client ns agent_id svc
    create_services client ns agent_id services
