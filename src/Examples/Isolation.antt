-- ===== src/Examples/Isolation.antt =====
-- A request to delete a VM of one cluster, and the other cluster.
use kubernetes_cpi.Base.{String, ◌≡◌, refl, [], ◌∷◌, ◌==◌, true, false, eq_iff, lookup, erase}
use kubernetes_cpi.Exec.{Outcome, foreign, returns, ok, err, ◌>>=◌}
use kubernetes_cpi.Cid.{split_n, parse_vmcid}
use kubernetes_cpi.Kube.World.{World, Client}
use kubernetes_cpi.Kube.Memory.{Cluster}
use kubernetes_cpi.Kube.Client.{
  pods, config_maps, persistent_volume_claims, services, ingress_service, core, deployments,
  by_client,
}
use kubernetes_cpi.Kube.Client.Untouched.{Untouched}
use kubernetes_cpi.Actions.Vms
use kubernetes_cpi.Config.{ApiConfig, new_client}
use kubernetes_cpi.Dispatch.{dispatch}
use kubernetes_cpi.Main.{
  Action, info, create_stemcell, delete_stemcell, create_vm, delete_vm, has_vm, set_vm_metadata,
  create_disk, attach_disk, set_disk_metadata, has_disk, delete_disk, detach_disk, get_disks,
  method_name,
}
use kubernetes_cpi.Main.Types.{Args}
use kubernetes_cpi.Main.Typed.{read_args}
use kubernetes_cpi.Main.Table.{parameters}
use kubernetes_cpi.Main.Program.{Request, Host, provider, serve}
use kubernetes_cpi.Main.Isolation.{Names}
use kubernetes_cpi.Main.Isolation.Served.{serve-Keeps}
use kubernetes_cpi.Examples.Fixtures.{world, start}
use kubernetes_cpi.Examples.Clusters.{two_clusters, no_volumes, untouched}
use kubernetes_cpi.Examples.Program.{host, agent_config}

abbrev Both : Type 0
Both = Cluster × Cluster

abbrev both : World
both = record {
  State = Both;
  new_client = λ x s. (err (foreign "no provider"), s);
  pods = by_client (pods two_clusters);
  config_maps = by_client (config_maps two_clusters);
  claims = by_client (persistent_volume_claims two_clusters);
  services = by_client (services two_clusters);
  ingresses = by_client (ingress_service two_clusters);
  secrets = by_client (λ c. (core two_clusters c).secrets c.namespace);
  namespaces = by_client (λ c. (core two_clusters c).namespaces);
  deployments = by_client (deployments two_clusters);
  patch_pod = λ c. (core two_clusters c).patch_pod c.namespace;
  sleep = λ n s. (world.sleep n s.0, s.1);
  read_file = λ path s. (ok path, s);
  parse_selector = world.parse_selector;
  is_qualified_name = world.is_qualified_name;
  is_valid_label_value = world.is_valid_label_value;
  parse_quantity = world.parse_quantity;
  lower_unicode = world.lower_unicode;
  marshal_settings = world.marshal_settings;
  unmarshal_settings = world.unmarshal_settings;
  marshal_pod = world.marshal_pod;
  create_patch = world.create_patch;
}

abbrev host_of_both : Host Both
host_of_both = record {
  File = String;
  Json = String;
  open_file = λ path s. (ok path, s);
  decode_kube_config = λ file s. (err (foreign "not read"), s);
  decode_agent_config = λ file s. (err (foreign "not read"), s);
  read_input = λ s. (ok "{}", s);
  write_output = λ out s. (record (s.0) { printed = out ∷ s.0.printed }, s.1);
  write_error = λ out s. s;
  unmarshal_request = host.unmarshal_request;
  marshal = host.marshal;
  unmarshal = host.unmarshal;
  marshal_response = host.marshal_response;
  elem_type = host.elem_type;
  new_uuid = λ s. (ok "1", s);
  message = host.message;
  rest_config = λ config context. ok context;
  new_for_config = λ rest. ok rest;
  clientset = two_clusters;
  namespace_of = λ config context. ok "bosh";
}

abbrev request : Request String
request = record { method = "delete_vm"; arguments = "ctx:a" ∷ [] }

abbrev config : ApiConfig
config = record { clusters = []; auth_infos = []; contexts = []; current_context = "" }

abbrev other : Both → Cluster
other s = s.1

abbrev before : Both
before = (start, start)

-- The VM of the first cluster is gone.
deleted : (serve both host_of_both true config agent_config request before).1.0.pods ≡ []
unfolding serve ◌>>=◌ split_n dispatch new_client lookup erase pods services config_maps
    Vms.delete_vm
deleted = refl

named : parse_vmcid "ctx:a" ≡ returns ("ctx", "a")
unfolding parse_vmcid split_n
named = refl

distinct : {P : Type 0} {a b : String} → (a == b) ≡ false → a ≡ b → P
distinct {P} {a} {b} differ same = let equal : (a == b) ≡ true = (eq_iff a b).1 same in cc

abbrev the_arguments : Outcome (Args (parameters delete_vm))
the_arguments = returns ("ctx:a", tt)

same_vm : {vm : String} {u : Unit {0}} → the_arguments ≡ returns (vm, u) → "ctx:a" ≡ vm
same_vm h = cc

same_context : {x a : String} → parse_vmcid "ctx:a" ≡ returns (x, a) → "ctx" ≡ x
same_context h = cc (named, h)

same_clientset : (c : Client) → provider both host_of_both config "ctx" ≡ ok c → "ctx" ≡ c.clientset
unfolding new_client
same_clientset c h = cc

other-Untouched : (set ns : String) → "ctx" ≡ set → Untouched other (two_clusters set) ns
other-Untouched set ns h =
    rw (← h) (untouched (λ (s : Both). s.0) (λ s t. (t, s.1)) other (λ s t. refl) no_volumes ns)

elsewhere :
    (action : Action) (args : Args (parameters action)) (x : String) (c : Client)
    → "delete_vm" ≡ method_name action
    → read_args host_of_both.elem_type host_of_both.marshal host_of_both.unmarshal
        (parameters action)
        ("ctx:a" ∷ [])
      ≡ returns args
    → Names action args x
    → provider both host_of_both config x ≡ ok c
    → Untouched other (two_clusters c.clientset) c.namespace
elsewhere delete_vm (vm, u) x c m r (a, h) p =
    let here : "ctx" ≡ x = same_context (rw (← same_vm r) at h) in
    other-Untouched c.clientset c.namespace (same_clientset c (rw (← here) at p))
elsewhere info args x c m r h p = distinct refl m
elsewhere create_stemcell args x c m r h p = distinct refl m
elsewhere delete_stemcell args x c m r h p = distinct refl m
elsewhere create_vm args x c m r h p = distinct refl m
elsewhere has_vm args x c m r h p = distinct refl m
elsewhere set_vm_metadata args x c m r h p = distinct refl m
elsewhere create_disk args x c m r h p = distinct refl m
elsewhere attach_disk args x c m r h p = distinct refl m
elsewhere set_disk_metadata args x c m r h p = distinct refl m
elsewhere has_disk args x c m r h p = distinct refl m
elsewhere delete_disk args x c m r h p = distinct refl m
elsewhere detach_disk args x c m r h p = distinct refl m
elsewhere get_disks args x c m r h p = distinct refl m

serve-Keeps_example :
    other (serve both host_of_both true config agent_config request before).1 ≡ other before
serve-Keeps_example =
    serve-Keeps both host_of_both other config agent_config request
      (λ path. record { at = λ s. refl }) (λ n s. refl) (record { at = λ s. refl }) (λ text s. refl)
      (λ text s. refl) elsewhere true before
