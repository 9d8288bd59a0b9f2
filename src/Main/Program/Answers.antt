-- ===== src/Main/Program/Answers.antt =====
-- What a request that is answered was answered with.
use kubernetes_cpi.Base.{String, List, ◌<>◌, ◌≡◌, refl, sym, ap, subst, ◌∙◌, Bool, if◌then◌else◌}
use kubernetes_cpi.Exec.{Call, Outcome, returns, ok, Exec, call, lift, ◌>>=◌, ◌>>◌}
use kubernetes_cpi.Exec.Returns.{
  Runs, plain-step, lift-step, call-step, wrapping-Runs, of_result-returns,
}
use kubernetes_cpi.Kube.World.{World}
use kubernetes_cpi.Actions.CreateVm.{AgentConfig}
use kubernetes_cpi.Config.{Kubernetes, ApiConfig, client_config}
use kubernetes_cpi.Dispatch.{Response}
use kubernetes_cpi.Main.Types.{GoType, Args, Value}
use kubernetes_cpi.Main.Typed.{dispatch-typed}
use kubernetes_cpi.Main.Program.Methods.{Calls, function-Calls}
use kubernetes_cpi.Main.Program.Reading.{ReadAs, typed_dispatch-Runs}
use kubernetes_cpi.Main.Table.{parameters, function}
use kubernetes_cpi.Main.Program.{
  Request, Flags, Host, provided, must, load_kube_config, load_agent_config, debug_json,
  dispatch_to, serve, main,
}
use kubernetes_cpi.Main.Program.Routes.{or_panic-returns, handle-Runs}

module _ (W : World) (H : Host W.State) where
  of_must :
      {A : Type 0} (o : Outcome A) (s : W.State) {a : A}
      → (must W H (lift o) s).0 ≡ returns a
      → (o ≡ returns a) × ((must W H (lift o) s).1 ≡ s)
  unfolding lift
  of_must o s h = (or_panic-returns H.message o h, refl)

  -- What a debug message says of a text.
  abbrev note : Bool → String → String → W.State → W.State
  note debug stem text s =
      if debug then H.write_error ("{ \"" <> stem <> "\": " <> text <> " }\n") s else s

  printed :
      (debug : Bool) (text : String) (s t : W.State)
      → Runs {0}
          (debug_json W H debug "response" text >> λ x. (returns tt, H.write_output text x))
          s
          tt
          t
      → H.write_output text (note debug "response" text s) ≡ t
  unfolding debug_json ◌>>=◌
  printed debug text s t h = h.1

  -- There is one argument for each type that the method takes, and each is read at its type; what
  -- the method asks for, run on these from the state in which the request came, gave a response; and
  -- the text of the response is what was printed, with nothing else written but a debug message.
  abbrev pub Answered : Bool → ApiConfig → AgentConfig → Request H.Json → W.State → W.State → Type 0
  Answered debug config agent_config req s t =
      (types : List GoType) × (typed : Args types) × (run : Exec W.State (Response Value))
      × (response : Response Value) × (text : String) × (s' : W.State) × ReadAs H.marshal
          H.unmarshal types req.arguments typed
      × Calls (provided W H config) agent_config H.new_uuid H.message req.method types typed run
      × Runs run s response s'
      × (H.marshal_response response ≡ ok text)
      × (t ≡ H.write_output text (note debug "response" text s'))

  called_by :
      (config : ApiConfig) (agent_config : AgentConfig) {types : List GoType} {typed : Args types}
      {m m' : String} (run : Exec W.State (Response Value))
      → m ≡ m'
      → Calls (provided W H config) agent_config H.new_uuid H.message m types typed run
      → Calls (provided W H config) agent_config H.new_uuid H.message m' types typed run
  called_by config agent_config {types} {typed} run same h =
      subst (λ x. Calls (provided W H config) agent_config H.new_uuid H.message x types typed run)
        same h

  serve-answers :
      (debug : Bool) (config : ApiConfig) (agent_config : AgentConfig) (req : Request H.Json)
      (s t : W.State)
      → Runs (serve W H debug config agent_config req) s tt t
      → Answered debug config agent_config req s t
  unfolding serve dispatch_to
  serve-answers debug config agent_config req s t h = plain-step _ _ _ h λ response handled h1.
      let (action, named, (dispatched, at)) =
        handle-Runs H.message (dispatch_to W H config agent_config req.arguments) req.method s
          (handled, refl) in
      plain-step _ _ _ h1 λ text written h2.
        let (marshalled, same) = of_must _ _ written in
        let typed =
          dispatch-typed H.elem_type H.marshal H.unmarshal H.message (parameters action)
            (function (provided W H config) agent_config H.new_uuid action) req.arguments s in
        let (args, read, (ran, end)) =
          typed_dispatch-Runs H.marshal H.unmarshal H.elem_type H.message (parameters action)
            (function (provided W H config) agent_config H.new_uuid action) req.arguments s _
            (ap (λ r. r.0) (sym typed) ∙ dispatched, ap (λ r. r.1) (sym typed) ∙ at) in
        let (run, calls, as_asked) =
          function-Calls (provided W H config) agent_config H.new_uuid H.message action args in
        (
          parameters action,
          args,
          run,
          response,
          text,
          _,
          read,
          called_by config agent_config run (sym named) calls,
          (ap (λ r. r.0) (sym (as_asked s)) ∙ ran, ap (λ r. r.1) (sym (as_asked s)) ∙ end),
          of_result-returns _ marshalled,
          sym (printed debug text _ t h2)
              ∙ ap (λ x. H.write_output text (note debug "response" text x)) same,
        )

  -- A file was opened and decoded.
  abbrev pub Loaded :
      {A : Type 0} → (H.File → Call W.State A) → String → W.State → A → W.State → Type 0
  Loaded decode path s a t =
      (file : H.File) × ((H.open_file path s).0 ≡ ok file)
      × ((decode file (H.open_file path s).1).0 ≡ ok a)
      × ((decode file (H.open_file path s).1).1 ≡ t)

  load_kube_config-Loaded :
      (path : String) (s t : W.State) {config : Kubernetes}
      → Runs (load_kube_config W H path) s config t
      → Loaded H.decode_kube_config path s config t
  unfolding load_kube_config call
  load_kube_config-Loaded path s t h = call-step _ _ _ _ h λ file opened h1.
      let (decoded, end) = wrapping-Runs _ _ _ h1 in
      (file, opened, of_result-returns _ decoded, end)

  load_agent_config-Loaded :
      (path : String) (s t : W.State) {config : AgentConfig}
      → Runs (load_agent_config W H path) s config t
      → Loaded H.decode_agent_config path s config t
  unfolding load_agent_config call
  load_agent_config-Loaded path s t h = call-step _ _ _ _ h λ file opened h1.
      let (decoded, end) = wrapping-Runs _ _ _ h1 in
      (file, opened, of_result-returns _ decoded, end)

  -- Both configuration files were read, then the request, and the configuration was converted; the
  -- request was answered from where this ended.
  abbrev pub Served : Flags → W.State → W.State → Type 0
  Served flags s t =
      (kube_config : Kubernetes) × (agent_config : AgentConfig) × (payload : String)
      × (req : Request H.Json) × (config : ApiConfig) × (s1 : W.State) × (s2 : W.State) × Loaded
          H.decode_kube_config flags.kube_config s kube_config s1
      × Loaded H.decode_agent_config flags.agent_config s1 agent_config s2
      × ((H.read_input s2).0 ≡ ok payload)
      × (H.unmarshal_request payload ≡ ok req)
      × (client_config kube_config ≡ returns config)
      × Answered flags.debug config agent_config req
          (note flags.debug "request" payload (H.read_input s2).1) t

  -- If the program ends, without a panic and without waiting for ever, it has opened and decoded
  -- both configuration files and read one request, and converted the configuration; the request
  -- names one of fourteen methods, with one argument for each parameter of the method, which is read
  -- at the type of the parameter; the action of this method, with its settings and with clients of
  -- the configuration, was run on these arguments and gave a response: its value if it has one, and
  -- the message of its error; and the text of the response is what is printed.
  pub main-answers :
      (flags : Flags) (s t : W.State)
      → (main W H flags s).0 ≡ returns tt
      → (main W H flags s).1 ≡ t
      → Served flags s t
  unfolding main debug_json call
  main-answers flags s t done end =
      plain-step _ _ _ (done, end)
        λ kube_config h0 h1. plain-step _ _ _ h1 λ agent_config h0' h2.
          plain-step _ _ _ h2 λ payload h0'' h3. plain-step _ _ _ h3 λ u shown h4.
            plain-step _ _ _ h4 λ req asked h5. lift-step _ _ _ h5 λ config converted h6.
              let (unmarshalled, same) = of_must _ _ asked in
              (
                kube_config,
                agent_config,
                payload,
                req,
                config,
                _,
                _,
                load_kube_config-Loaded _ _ _ (or_panic-returns H.message _ h0, refl),
                load_agent_config-Loaded _ _ _ (or_panic-returns H.message _ h0', refl),
                of_result-returns _ (or_panic-returns H.message _ h0''),
                of_result-returns _ unmarshalled,
                converted,
                serve-answers flags.debug config agent_config req _ t (rw same at h6),
              )
