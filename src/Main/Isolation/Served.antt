-- ===== src/Main/Isolation/Served.antt =====
-- cmd/cpi/main.go: a request, from the switch over its method to its response, and the clusters and
-- namespaces that it does not name.
use kubernetes_cpi.Base.{ℕ, String, ◌≡◌, refl, ap, ◌∙◌, Bool, true, false}
use kubernetes_cpi.Exec.{Exec, returns, ok, of_result, lift, ◌>>=◌}
use kubernetes_cpi.Exec.Keeps.{Keeps, Leaves, Keeps-bind, Keeps-then, Keeps-lift, Keeps-lift-bind}
use kubernetes_cpi.Kube.World.{World, Client}
use kubernetes_cpi.Kube.Client.Untouched.{Untouched, through-Spares}
use kubernetes_cpi.Kube.Spares.{Ambient}
use kubernetes_cpi.Actions.CreateVm.{AgentConfig}
use kubernetes_cpi.Config.{ApiConfig}
use kubernetes_cpi.Main.{Action, method_name, route, handle}
use kubernetes_cpi.Main.Types.{Args}
use kubernetes_cpi.Main.Typed.{read_args, typed_dispatch, dispatch-typed}
use kubernetes_cpi.Main.Table.{parameters, function}
use kubernetes_cpi.Main.Program.{
  Request, Host, provider, provided, must, debug_json, dispatch_to, serve,
}
use kubernetes_cpi.Main.Program.Routes.{route-returns}
use kubernetes_cpi.Main.Isolation.{Names, function-Keeps}

module _ (W : World) (H : Host W.State) {X : Type 0} (view : W.State → X) where
  must-Keeps : {A : Type 0} (m : Exec W.State A) → Keeps view m → Keeps view (must W H m)
  must-Keeps m h = record { at = h.at }

  module _ (config : ApiConfig) (agent_config : AgentConfig) (req : Request H.Json)
      (files : (path : String) → Leaves view (W.read_file path))
      (clock : (n : ℕ) (s : W.State) → view (W.sleep n s) ≡ view s) (uuids : Leaves view H.new_uuid)
      (output : (text : String) (s : W.State) → view (H.write_output text s) ≡ view s)
      (complaint : (text : String) (s : W.State) → view (H.write_error text s) ≡ view s)
      (elsewhere : (action : Action) (args : Args (parameters action)) (x : String) (c : Client)
        → req.method ≡ method_name action
        → read_args H.elem_type H.marshal H.unmarshal (parameters action) req.arguments
          ≡ returns args
        → Names action args x
        → provider W H config x ≡ ok c
        → Untouched view (H.clientset c.clientset) c.namespace) where
    ambient : Ambient (provided W H config) view
    ambient = record {
      new_client = λ x. record { at = λ s. refl };
      read_file = files;
      sleep = clock;
    }

    abbrev made : World
    made = record W { new_client = λ context s. (provider W H config context, s) }

    dispatch_to-Keeps :
        (action : Action)
        → req.method ≡ method_name action
        → Keeps view (dispatch_to W H config agent_config req.arguments action)
    unfolding dispatch_to
    dispatch_to-Keeps action named =
        let typed : Keeps view (
            typed_dispatch H.elem_type H.marshal H.unmarshal H.message (parameters action)
              (function (provided W H config) agent_config H.new_uuid action) req.arguments) =
          Keeps-bind _ _ (Keeps-lift _) λ counted. Keeps-lift-bind _ _ λ args read.
            Keeps-bind _ _
              (function-Keeps (provided W H config) view ambient agent_config H.new_uuid uuids
                action args
                λ x names t c found.
                  through-Spares made H.clientset view c
                    (elsewhere action args x c named read names found))
              λ results. Keeps-lift _ in
        record {
          at = λ s.
              ap (λ r. view r.1)
                (dispatch-typed H.elem_type H.marshal H.unmarshal H.message (parameters action)
                  (function (provided W H config) agent_config H.new_uuid action) req.arguments s)
              ∙ typed.at s;
        }

    handled-Keeps :
        Keeps view (handle H.message (dispatch_to W H config agent_config req.arguments) req.method)
    unfolding handle ◌>>=◌ lift
    handled-Keeps =
        let whole : Keeps view
            (lift (route req.method) >>= dispatch_to W H config agent_config req.arguments) =
          Keeps-lift-bind _ _
            λ action routed. dispatch_to-Keeps action (route-returns req.method routed) in
        record { at = whole.at }

    debug_json-Keeps :
        (debug : Bool) (stem text : String) → Keeps view (debug_json W H debug stem text)
    unfolding debug_json
    debug_json-Keeps true stem text = record { at = complaint _ }
    debug_json-Keeps false stem text = record { at = λ s. refl }

    -- Whatever the method of a request is and whatever its arguments, and however its handling ends,
    -- in a response or in a panic, it leaves every view of the world, such as what another cluster or
    -- another namespace holds, which files, the clock, the uuids and the output leave, and which is
    -- untouched by the clientset and in the namespace that the configuration gives for each context
    -- that the arguments name.
    pub serve-Keeps :
        (debug : Bool) (s : W.State) → view (serve W H debug config agent_config req s).1 ≡ view s
    unfolding serve
    serve-Keeps debug s =
        let whole : Keeps view (serve W H debug config agent_config req) =
          Keeps-bind _ _ handled-Keeps λ result.
            Keeps-bind _ _
              (must-Keeps (lift (of_result (H.marshal_response result))) (Keeps-lift _))
              λ response.
                Keeps-then _ _ (debug_json-Keeps debug "response" response)
                  (record { at = output response }) in
        whole.at s
