-- ===== src/Examples/Requests.antt =====
-- The dispatch of requests, and the configuration.
use kubernetes_cpi.Base.{
  ℕ, ◌-◌, ◌≤◌, String, ◌≡◌, ◌↔◌, refl, true, false, none, some, List, [], ◌∷◌, lookup, insert,
}
use kubernetes_cpi.Exec.{Error, foreign, returns, fails, Result, ok, Exec}
use kubernetes_cpi.Kube.Objects.{Foreign}
use kubernetes_cpi.Kube.World.{Client}
use kubernetes_cpi.Dispatch.{length, ActionType, check_count, Returned, plain, error_value}
use kubernetes_cpi.Dispatch.Laws.{check_count_iff}
use kubernetes_cpi.Main.{Action}
use kubernetes_cpi.Config.{
  Kubernetes, ApiConfig, cluster_api, auth_info_api, context_api, client_config, new_client,
}
use kubernetes_cpi.Config.Laws.{converted, client_config-lookup, new_client_iff, MadeOf}

abbrev two_texts : ActionType String
two_texts = record { inputs = "string" ∷ "[]string" ∷ []; variadic = true }

abbrev elem_type : String → String
elem_type t = "string"

abbrev marshal : String → Result String
marshal text = ok text

abbrev unmarshal : String → String → Result String
unmarshal arg_type text = ok text

abbrev message : Error → String
message e = "failed"

-- Answers with its first argument, and the error that there is none.
abbrev action : List String → Exec ℕ (List (Returned String))
action values s = (returns (plain "done" ∷ error_value none ∷ []), s)

check_count_iff_example : (check_count two_texts 3 ≡ returns tt) ↔ (2 - 1 ≤ 3)
unfolding length
check_count_iff_example = check_count_iff two_texts 3

abbrev failing : Action → Exec ℕ String
failing a s = (fails (foreign "refused"), s)

abbrev kubernetes : Kubernetes
kubernetes = record {
  clusters =
      (
        "c",
        some (record {
          server = "https://c";
          insecure_skip_tls_verify = false;
          certificate_authority_data = "";
        }),
      )
      ∷ [];
  auth_infos = [];
  contexts = ("ctx", some (record { cluster = "c"; auth_info = "u"; namespace = "bosh" })) ∷ [];
  current_context = "ctx";
}

abbrev config : ApiConfig
config = record {
  clusters =
      (
        "c",
        record {
          server = "https://c";
          insecure_skip_tls_verify = false;
          certificate_authority_data = none;
        },
      )
      ∷ [];
  auth_infos = [];
  contexts = ("ctx", record { cluster = "c"; auth_info = "u"; namespace = "bosh" }) ∷ [];
  current_context = "ctx";
}

configured : client_config kubernetes ≡ returns config
unfolding client_config insert
configured = refl

nothing : {V : Type 0} (j : String) → lookup {V = V} j [] ≡ none
unfolding lookup
nothing j = refl

client_config-lookup_example :
    (lookup "ctx" config.clusters ≡ converted cluster_api (lookup "ctx" kubernetes.clusters))
    × (lookup "ctx" config.auth_infos
        ≡ converted auth_info_api (lookup "ctx" kubernetes.auth_infos))
    × (lookup "ctx" config.contexts ≡ converted context_api (lookup "ctx" kubernetes.contexts))
    × (config.current_context ≡ kubernetes.current_context)
client_config-lookup_example =
    client_config-lookup kubernetes config "ctx" (nothing "c", tt) tt (nothing "ctx", tt) configured

abbrev rest_config : ApiConfig → String → Result Foreign
rest_config c context = ok context

abbrev new_for_config : Foreign → Result Foreign
new_for_config rest = ok rest

abbrev namespace_of : ApiConfig → String → Result String
namespace_of c context = ok "bosh"

abbrev current : Client
current = record { context = "ctx"; namespace = "bosh"; clientset = "ctx" }

client_made : new_client rest_config new_for_config namespace_of config "" ≡ ok current
unfolding new_client
client_made = refl

new_client_iff_example :
    (new_client rest_config new_for_config namespace_of config "" ≡ ok current)
    ↔ MadeOf "ctx" (rest_config config "ctx") new_for_config (namespace_of config "ctx") current
new_client_iff_example = new_client_iff rest_config new_for_config namespace_of config "" current
