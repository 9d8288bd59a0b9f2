-- ===== src/Examples/Fakes.antt =====
-- The fakes as a test uses them.
use kubernetes_cpi.Base.{ℕ, String, ◌≡◌, refl, none, some, [], ◌∷◌, List}
use kubernetes_cpi.Kube.Memory.{Cluster}
use kubernetes_cpi.Kube.Client as Real
use kubernetes_cpi.Dispatch.{length}
use kubernetes_cpi.Fakes.{calls_to}
use kubernetes_cpi.Fakes.Context.{namespace_returns}
use kubernetes_cpi.Fakes.Provider.{ClientProvider, new_call_count, new_args_for_call}
use kubernetes_cpi.Fakes.Client.{
  Client, new_client, config_maps, services, persistent_volume_claims, persistent_volumes, pods,
  deployments, ingress_service,
}
use kubernetes_cpi.Fakes.Doubles.{IsDouble, Matches, double-Matches}
use kubernetes_cpi.Fakes.History.{
  Use, newing, returning, after, contexts, element_at, or_out_of_range, after_lem,
}
use kubernetes_cpi.Examples.Fixtures.{client}
use kubernetes_cpi.Examples.Clusters.{one_cluster}

abbrev provider : ClientProvider String
provider = record {
  new_stub = some (λ context. (context, none));
  new_args_for_call = [];
  new_returns = ("", none);
  invocations = none;
}

abbrev uses : List (Use String)
uses = newing "ctx" ∷ returning "fixed" none ∷ newing "other" ∷ []

after_lem_example :
    (new_call_count (after uses provider) ≡ 2)
    × ((i : ℕ)
        → new_args_for_call (after uses provider) i
          ≡ or_out_of_range (element_at (contexts uses) i))
    × (calls_to "New" (after uses provider).invocations ≡ ("ctx" ∷ []) ∷ ("other" ∷ []) ∷ [])
unfolding length
after_lem_example = after_lem uses provider refl refl

abbrev fake : Client Cluster String
fake =
    (λ (f : Client Cluster String). record f {
      client_context = namespace_returns "bosh" f.client_context;
    })
      (new_client one_cluster)

is_double : IsDouble (λ set. one_cluster) client fake
unfolding new_client namespace_returns
is_double = (refl, refl)

double-Matches_example :
    Matches
      (λ set. one_cluster)
      client
      fake
      (config_maps fake)
      (Real.config_maps (λ set. one_cluster) client)
    × Matches
        (λ set. one_cluster)
        client
        fake
        (services fake)
        (Real.services (λ set. one_cluster) client)
    × Matches
        (λ set. one_cluster)
        client
        fake
        (persistent_volume_claims fake)
        (Real.persistent_volume_claims (λ set. one_cluster) client)
    × Matches (λ set. one_cluster) client fake (pods fake) (Real.pods (λ set. one_cluster) client)
    × Matches
        (λ set. one_cluster)
        client
        fake
        (deployments fake)
        (Real.deployments (λ set. one_cluster) client)
    × Matches
        (λ set. one_cluster)
        client
        fake
        (ingress_service fake)
        (Real.ingress_service (λ set. one_cluster) client)
    × (persistent_volumes fake ≡ (Real.persistent_volumes (λ set. one_cluster) client, fake))
double-Matches_example = double-Matches (λ set. one_cluster) client fake is_double
