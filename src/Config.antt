-- ===== src/Config.antt =====
-- config/kubernetes.go: the configuration file as a configuration of the vendored client, and
-- kubecluster/provider.go: the client for a context of it.
pub mod Laws
use kubernetes_cpi.Base.{
  String, Bool, not, Option, none, some, List, [], ◌∷◌, Dict, insert, ◌==◌, if◌then◌else◌,
}
use kubernetes_cpi.Exec.{Outcome, returns, panics, Result, ok, and_then, ok_then, wrap_result}
use kubernetes_cpi.Kube.Objects.{Foreign}
use kubernetes_cpi.Kube.World.{Client}

pub record Cluster : Type 0 where
  pub server : String
  pub insecure_skip_tls_verify : Bool
  pub certificate_authority_data : String

pub record AuthInfo : Type 0 where
  pub client_certificate_data : String
  pub client_key_data : String
  pub token : String
  pub username : String
  pub password : String
  pub auth_provider : String
  pub idp_issuer_url : String
  pub client_secret : String
  pub client_id : String
  pub refresh_token : String

pub record Context : Type 0 where
  pub cluster : String
  pub auth_info : String
  pub namespace : String

-- The maps hold pointers; none is nil.
pub record Kubernetes : Type 0 where
  pub clusters : Dict (Option Cluster)
  pub auth_infos : Dict (Option AuthInfo)
  pub contexts : Dict (Option Context)
  pub current_context : String

-- The types of clientcmdapi, with the fields that are set here; the others keep the value that the
-- constructor gives them. A []byte that stays nil is none.
pub record ApiCluster : Type 0 where
  pub server : String
  pub insecure_skip_tls_verify : Bool
  pub certificate_authority_data : Option String

pub record AuthProviderConfig : Type 0 where
  pub name : String
  pub config : Option (Dict String)

pub record ApiAuthInfo : Type 0 where
  pub token : String
  pub username : String
  pub password : String
  pub client_certificate_data : Option String
  pub client_key_data : Option String
  pub auth_provider : Option AuthProviderConfig

pub record ApiContext : Type 0 where
  pub cluster : String
  pub auth_info : String
  pub namespace : String

pub record ApiConfig : Type 0 where
  pub clusters : Dict ApiCluster
  pub auth_infos : Dict ApiAuthInfo
  pub contexts : Dict ApiContext
  pub current_context : String

-- if len(data) != 0 { … = []byte(data) }
abbrev pub bytes_of : String → Option String
bytes_of text = if text == "" then none else some text

unfoldable pub cluster_api : Cluster → ApiCluster
cluster_api c = record {
  server = c.server;
  insecure_skip_tls_verify = c.insecure_skip_tls_verify;
  certificate_authority_data = bytes_of c.certificate_authority_data;
}

unfoldable pub auth_provider_of : AuthInfo → Option AuthProviderConfig
auth_provider_of a =
    if a.auth_provider == ""
    then none
    else some (record {
      name = a.auth_provider;
      config =
          if a.auth_provider == "oidc"
          then some (
              ("idp-issuer-url", a.idp_issuer_url)
              ∷ ("client-secret", a.client_secret)
              ∷ ("client-id", a.client_id)
              ∷ ("id-token", a.token)
              ∷ ("refresh-token", a.refresh_token)
              ∷ [])
          else none;
    })

unfoldable pub auth_info_api : AuthInfo → ApiAuthInfo
unfolding auth_provider_of
auth_info_api a = record {
  token = a.token;
  username = a.username;
  password = a.password;
  client_certificate_data = bytes_of a.client_certificate_data;
  client_key_data = bytes_of a.client_key_data;
  auth_provider = auth_provider_of a;
}

unfoldable pub context_api : Context → ApiContext
context_api c = record { cluster = c.cluster; auth_info = c.auth_info; namespace = c.namespace }

-- for k, v := range from { to[k] = v.api() }
unfoldable pub copy_into : {V A : Type 0} → (V → A) → Dict (Option V) → Dict A → Outcome (Dict A)
copy_into api [] to = returns to
copy_into api ((k, none) ∷ from) to = panics "invalid memory address or nil pointer dereference"
copy_into api ((k, some v) ∷ from) to = copy_into api from (insert k (api v) to)

unfoldable pub client_config : Kubernetes → Outcome ApiConfig
unfolding copy_into cluster_api auth_info_api context_api
client_config k = and_then (copy_into cluster_api k.clusters []) λ clusters.
    and_then (copy_into auth_info_api k.auth_infos []) λ auth_infos.
      and_then (copy_into context_api k.contexts []) λ contexts. returns (record {
        clusters = clusters;
        auth_infos = auth_infos;
        contexts = contexts;
        current_context = k.current_context;
      })

-- DefaultContext
abbrev pub default_context : String
default_context = ""

-- Provider.New, on what the vendored client makes of a configuration and a context: the REST
-- configuration, the client set of it, and the namespace.
module _ (rest_config : ApiConfig → String → Result Foreign)
    (new_for_config : Foreign → Result Foreign)
    (namespace_of : ApiConfig → String → Result String) where
  unfoldable pub new_client : ApiConfig → String → Result Client
  new_client config asked =
      let context = if asked == default_context then config.current_context else asked in
      ok_then (wrap_result "Getting kubeClientConfig" (rest_config config context)) λ rest.
        ok_then (wrap_result "Creating a new clientset from config" (new_for_config rest))
          λ clientset.
            ok_then
              (wrap_result "Getting namespace based on client and context"
                (namespace_of config context))
              λ ns. ok (record { context = context; namespace = ns; clientset = clientset })
