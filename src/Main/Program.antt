-- ===== src/Main/Program.antt =====
-- cmd/cpi/main.go: one request, from the flags and files to the printed response.
pub mod Reading
pub mod Methods
pub mod Routes
pub mod Answers
pub mod Safety
use kubernetes_cpi.Base.{String, ◌<>◌, Bool, List, [], ◌∷◌, if◌then◌else◌}
use kubernetes_cpi.Exec.{
  Error, returns, Result, of_result, Call, Exec, pure, lift, call, wrapping, ◌>>=◌, ◌>>◌,
}
use kubernetes_cpi.Kube.Objects.{Foreign}
use kubernetes_cpi.Kube.World.{World, Client}
use kubernetes_cpi.Kube.Client.{Clientset, through}
use kubernetes_cpi.Actions.CreateVm.{AgentConfig}
use kubernetes_cpi.Config.{Kubernetes, ApiConfig, client_config, new_client}
use kubernetes_cpi.Dispatch.{Response, dispatch}
use kubernetes_cpi.Main.{Action, or_panic, handle}
use kubernetes_cpi.Main.Types.{GoType, GoValue, Value, call_func}
use kubernetes_cpi.Main.Typed.{fixed, unmarshal_new}
use kubernetes_cpi.Main.Table.{parameters, function}

-- cpi.Request; its context is not read.
pub record Request (Json : Type 0) : Type 0 where
  pub method : String
  pub arguments : List Json

pub record Flags : Type 0 where
  pub agent_config : String
  pub kube_config : String
  pub debug : Bool

-- What the process uses of its system, of encoding/json, reflect, uuid and of the vendored client.
pub record Host (S : Type 0) : Type 1 where
  pub File : Type 0
  pub Json : Type 0
  pub open_file : String → Call S File
  -- Decode of a json.Decoder on the file
  pub decode_kube_config : File → Call S Kubernetes
  pub decode_agent_config : File → Call S AgentConfig
  -- ioutil.ReadAll(os.Stdin)
  pub read_input : Call S String
  pub write_output : String → S → S
  pub write_error : String → S → S
  pub unmarshal_request : String → Result (Request Json)
  pub marshal : Json → Result String
  pub unmarshal : (t : GoType) → String → Result (GoValue t)
  pub marshal_response : Response Value → Result String
  -- Elem of a reflect.Type
  pub elem_type : GoType → GoType
  pub new_uuid : Call S String
  -- Error of an error, also as a panic prints it
  pub message : Error → String
  pub rest_config : ApiConfig → String → Result Foreign
  pub new_for_config : Foreign → Result Foreign
  -- the calls of a clientset
  pub clientset : Foreign → Clientset S
  pub namespace_of : ApiConfig → String → Result String

-- A kubecluster.Provider of the configuration.
abbrev pub provider : (W : World) → Host W.State → ApiConfig → String → Result Client
provider W H config = new_client H.rest_config H.new_for_config H.namespace_of config

-- The world with the clients of the provider.
abbrev pub provided : (W : World) → Host W.State → ApiConfig → World
provided W H config =
    through (record W { new_client = λ context s. (provider W H config context, s) }) H.clientset

module _ (W : World) (H : Host W.State) where
  -- if err != nil { panic(err) }
  abbrev pub must {ℓ} : {A : Type ℓ} → Exec W.State A → Exec W.State A
  must m s = let (o, s') = m s in (or_panic H.message o, s')

  unfoldable pub load_kube_config : String → Exec W.State Kubernetes
  load_kube_config path = do
    file ← wrapping ("Opening kubeConfigFile " <> path) (call (H.open_file path))
    wrapping "Decoding kubeConfigFile" (call (H.decode_kube_config file))

  unfoldable pub load_agent_config : String → Exec W.State AgentConfig
  load_agent_config path = do
    file ← wrapping ("Loading agentConfigFile " <> path) (call (H.open_file path))
    wrapping "Decoding agentConfigFile" (call (H.decode_agent_config file))

  unfoldable pub debug_json : Bool → String → String → Exec W.State (Unit {0})
  debug_json debug stem payload s =
      let text = "{ \"" <> stem <> "\": " <> payload <> " }\n" in
      (returns tt, if debug then H.write_error text s else s)

  -- The dispatch to the function for an action.
  unfoldable pub dispatch_to :
      ApiConfig → AgentConfig → List H.Json → Action → Exec W.State (Response Value)
  unfolding dispatch call_func function
  dispatch_to config agent_config arguments action =
      dispatch H.elem_type H.marshal (unmarshal_new H.elem_type H.marshal H.unmarshal) H.message
        (fixed (parameters action))
        (call_func (parameters action)
          (function (provided W H config) agent_config H.new_uuid action))
        arguments

  -- From the switch over the method on.
  unfoldable pub serve : Bool → ApiConfig → AgentConfig → Request H.Json → Exec W.State (Unit {0})
  unfolding dispatch_to handle debug_json
  serve debug config agent_config req = do
    result ← handle H.message (dispatch_to config agent_config req.arguments) req.method
    response ← must (lift (of_result (H.marshal_response result)))
    debug_json debug "response" response
    λ s. (returns tt, H.write_output response s)

  unfoldable pub main : Flags → Exec W.State (Unit {0})
  unfolding load_kube_config load_agent_config serve debug_json client_config
  main flags = do
    kube_config ← must (load_kube_config flags.kube_config)
    agent_config ← must (load_agent_config flags.agent_config)
    payload ← must (call H.read_input)
    debug_json flags.debug "request" payload
    req ← must (lift (of_result (H.unmarshal_request payload)))
    config ← lift (client_config kube_config)
    serve flags.debug config agent_config req
