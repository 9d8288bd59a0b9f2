-- ===== src/Examples/Program.antt =====
-- The program, from its flags to what it prints, on the small cluster.
use kubernetes_cpi.Base.{
  String, ◌≡◌, refl, ap, sym, true, false, Option, some, [], ◌∷◌, lookup, insert,
}
use kubernetes_cpi.Exec.Safe.{NoPanic}
use kubernetes_cpi.Cid.Laws.{has_colon}
use kubernetes_cpi.Actions.VolumeManager.Safety.{change_disk-NoPanic}
use kubernetes_cpi.Main.Program.Reading.{ReadAs}
use kubernetes_cpi.Main.Program.Safety.{dispatch-NoPanic}
use kubernetes_cpi.Exec.{Outcome, fails, panics, waits, foreign, returns, Result, ok, err, ◌>>=◌}
use kubernetes_cpi.Cid.{split_n}
use kubernetes_cpi.Kube.Memory.{Cluster}
use kubernetes_cpi.Kube.Client.{pods}
use kubernetes_cpi.Actions.Vms.{has_vm}
use kubernetes_cpi.Actions.CreateVm.{AgentConfig}
use kubernetes_cpi.Config.{Kubernetes, new_client}
use kubernetes_cpi.Dispatch.{Returned, plain, dispatch}
use kubernetes_cpi.Main.{attach_disk}
use kubernetes_cpi.Main.Types.{GoType, GoValue, Value, text, stemcell_cid, vmcid, disk_cid, flag}
use kubernetes_cpi.Main.Typed.{fixed, unmarshal_new, typed_dispatch, dispatch-typed}
use kubernetes_cpi.Main.Table.{parameters, function, error_results, volume_manager}
use kubernetes_cpi.Main.Types.{call_func, apply, Args}
use kubernetes_cpi.Main.Program.{Flags, Request, Host, main}
use kubernetes_cpi.Main.Program.Answers.{Served, main-answers}
use kubernetes_cpi.Examples.Fixtures.{world, start}
use kubernetes_cpi.Examples.Clusters.{one_cluster}

-- A text is a JSON value; only texts are read.
abbrev read_value : (t : GoType) → String → Result (GoValue t)
read_value text s = ok s
read_value stemcell_cid s = ok s
read_value vmcid s = ok s
read_value disk_cid s = ok s
read_value _ s = err (foreign "cannot unmarshal string")

abbrev show : Option (Returned Value) → String
show (some (plain (flag, true))) = "true"
show (some (plain (flag, false))) = "false"
show _ = "null"

abbrev kubernetes : Kubernetes
kubernetes = record { clusters = []; auth_infos = []; contexts = []; current_context = "ctx" }

abbrev pub agent_config : AgentConfig
agent_config = record { blobstore = "{}"; message_bus = "nats://bus"; ntp_servers = [] }

abbrev request : Request String
request = record { method = "has_vm"; arguments = "ctx:a" ∷ [] }

abbrev pub host : Host Cluster
host = record {
  File = String;
  Json = String;
  open_file = λ path s. (ok path, s);
  decode_kube_config = λ file s. (ok kubernetes, s);
  decode_agent_config = λ file s. (ok agent_config, s);
  read_input = λ s. (ok "{}", s);
  write_output = λ out s. record s { printed = out ∷ s.printed };
  write_error = λ out s. s;
  unmarshal_request = λ payload. ok request;
  marshal = λ json. ok json;
  unmarshal = read_value;
  marshal_response = λ response. ok (show response.result);
  elem_type = λ t. t;
  new_uuid = λ s. (ok "1", s);
  message = λ e. "failed";
  rest_config = λ config context. ok context;
  new_for_config = λ rest. ok rest;
  clientset = λ set. one_cluster;
  namespace_of = λ config context. ok "bosh";
}

abbrev flags : Flags
flags = record { agent_config = "agent.json"; kube_config = "kube.json"; debug = true }

abbrev ended : Cluster
ended = (main world host flags start).1

prints_true : ended.printed ≡ "true" ∷ []
unfolding main ◌>>=◌ split_n lookup insert dispatch has_vm new_client pods
prints_true = refl

main_runs : (main world host flags start).0 ≡ returns tt
unfolding main ◌>>=◌ split_n lookup insert dispatch has_vm new_client pods
main_runs = refl

main-answers_example : Served world host flags start ended
main-answers_example = main-answers world host flags start ended main_runs refl

dispatch-typed_example :
    dispatch host.elem_type host.marshal
      (unmarshal_new host.elem_type host.marshal host.unmarshal)
      host.message
      (fixed (parameters attach_disk))
      (call_func (parameters attach_disk) (function world agent_config host.new_uuid attach_disk))
      ("ctx:a" ∷ "ctx:d" ∷ [])
      start
    ≡ typed_dispatch host.elem_type host.marshal host.unmarshal host.message
        (parameters attach_disk)
        (function world agent_config host.new_uuid attach_disk)
        ("ctx:a" ∷ "ctx:d" ∷ [])
        start
dispatch-typed_example =
    dispatch-typed host.elem_type host.marshal host.unmarshal host.message (parameters attach_disk)
      (function world agent_config host.new_uuid attach_disk) ("ctx:a" ∷ "ctx:d" ∷ []) start

-- The arguments of a request to attach a disk are two ids with a colon.
attach_disk-calm :
    (typed : Args (parameters attach_disk))
    → ReadAs host.marshal host.unmarshal (parameters attach_disk) ("ctx:a" ∷ "ctx:d" ∷ []) typed
    → (t : Cluster)
    → NoPanic
        (apply
          (parameters attach_disk)
          (function world agent_config host.new_uuid attach_disk)
          typed
          t).0
unfolding function
attach_disk-calm (vm, (disk, u)) ((b, m, r), ((b', m', r'), end)) t = results_calm _ (
    (change_disk-NoPanic world {e = foreign "unexpected end of JSON input"} refl volume_manager vm
      disk t (ap has_colon (sym (read_text m r))) (ap has_colon (sym (read_text m' r')))).0)
  where
    read_text : {a b c : String} → ok a ≡ ok b → ok b ≡ ok c → a ≡ c
    read_text m r = cc

    results_calm : (o : Outcome (Unit {0})) → NoPanic o → NoPanic (error_results o)
    results_calm (returns u) h = tt
    results_calm (fails e) h = tt
    results_calm (panics p) h = h
    results_calm waits h = tt

dispatch-NoPanic_example :
    NoPanic
      (dispatch host.elem_type host.marshal
        (unmarshal_new host.elem_type host.marshal host.unmarshal)
        host.message
        (fixed (parameters attach_disk))
        (call_func (parameters attach_disk) (function world agent_config host.new_uuid attach_disk))
        ("ctx:a" ∷ "ctx:d" ∷ [])
        start).0
dispatch-NoPanic_example =
    dispatch-NoPanic host.elem_type host.marshal host.unmarshal host.message
      (parameters attach_disk) (function world agent_config host.new_uuid attach_disk)
      ("ctx:a" ∷ "ctx:d" ∷ []) start attach_disk-calm
