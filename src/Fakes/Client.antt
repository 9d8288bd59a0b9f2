-- ===== src/Fakes/Client.antt =====
-- kubecluster/fakes/client.go: a fake context and a fake clientset as a client.
use kubernetes_cpi.Base.{String, Bool, none, List, [], ◌∷◌, ◌++◌, if◌then◌else◌}
use kubernetes_cpi.Kube.Objects.{
  Foreign, Pod, ConfigMap, PersistentVolumeClaim, Service, Ingress, Deployment,
}
use kubernetes_cpi.Kube.Client.{Calls, Clientset}
use kubernetes_cpi.Fakes.Context.{ClientContext, namespace}

-- The clientset of the vendored fakes records the actions that are asked of it.
pub record Client (S Action : Type 0) : Type 0 where
  pub client_context : ClientContext
  pub clientset : Clientset S
  pub actions : List Action

-- NewClient, on the clientset that NewSimpleClientset makes of the objects
unfoldable pub new_client : {S Action : Type 0} → Clientset S → Client S Action
new_client clientset = record {
  client_context = record {
    context_stub = none;
    context_args_for_call = 0;
    context_returns = "";
    namespace_stub = none;
    namespace_args_for_call = 0;
    namespace_returns = "";
    invocations = none;
  };
  clientset = clientset;
  actions = [];
}

module _ {S Action : Type 0} where
  -- c.Namespace() is a call of the fake context, which is recorded.
  abbrev pub in_namespace {ℓ} : {A : Type ℓ} → (String → A) → Client S Action → A × Client S Action
  in_namespace of_namespace c =
      let (ns, client_context') = namespace c.client_context in
      (of_namespace ns, record c { client_context = client_context' })

  unfoldable pub config_maps : Client S Action → Calls S ConfigMap × Client S Action
  unfolding namespace
  config_maps c = in_namespace c.clientset.core.config_maps c

  unfoldable pub services : Client S Action → Calls S Service × Client S Action
  unfolding namespace
  services c = in_namespace c.clientset.core.services c

  unfoldable pub persistent_volume_claims :
      Client S Action → Calls S PersistentVolumeClaim × Client S Action
  unfolding namespace
  persistent_volume_claims c = in_namespace c.clientset.core.persistent_volume_claims c

  unfoldable pub persistent_volumes : Client S Action → Calls S Foreign × Client S Action
  persistent_volumes c = (c.clientset.core.persistent_volumes, c)

  unfoldable pub pods : Client S Action → Calls S Pod × Client S Action
  unfolding namespace
  pods c = in_namespace c.clientset.core.pods c

  unfoldable pub deployments : Client S Action → Calls S Deployment × Client S Action
  unfolding namespace
  deployments c = in_namespace c.clientset.extensions.deployments c

  unfoldable pub ingress_service : Client S Action → Calls S Ingress × Client S Action
  unfolding namespace
  ingress_service c = in_namespace c.clientset.extensions.ingresses c

-- The loop over the actions, behind the result so far.
unfoldable pub matching_from :
    {Action : Type 0}
    → (Action → String → String → Bool)
    → String
    → String
    → List Action
    → List Action
    → List Action
matching_from is_match verb resource [] result = result
matching_from is_match verb resource (action ∷ actions) result =
    matching_from is_match verb resource actions
      (if is_match action verb resource then result ++ (action ∷ []) else result)

unfoldable pub matching_actions :
    {S Action : Type 0}
    → (Action → String → String → Bool)
    → String
    → String
    → Client S Action
    → List Action
unfolding matching_from
matching_actions is_match verb resource c = matching_from is_match verb resource c.actions []
