-- ===== src/Actions/CreateVm/Progress/Services.antt =====
-- When `createServices` succeeds.
use kubernetes_cpi.Base.{
  String, ◌≡◌, refl, ◌↔◌, Bool, true, false, List, [], ◌∷◌, ◌==◌, Bool-cases, inl, inr,
}
use kubernetes_cpi.Exec.{Result, ok, err, pure, call, ◌>>◌}
use kubernetes_cpi.Exec.Returns.{
  Runs, call-step, plain-step, pure-Runs, Runs-called, Runs-bind, Runs-call, Runs-pure,
  of_result-returns,
}
use kubernetes_cpi.Kube.Objects
use kubernetes_cpi.Kube.Objects.{Ingress}
use kubernetes_cpi.Kube.World.{World, Client}
use kubernetes_cpi.Actions.CreateVm.Props
use kubernetes_cpi.Actions.CreateVm.Services.{
  kube_service, kube_ingress, service_if_absent, create_service, create_services,
}

module _ (W : World) (client : Client) (agent_id : String) where
  -- A service of the name is there, or it could not be read and was created.
  abbrev pub ServiceThere : Objects.Service → Result Objects.Service → W.State → W.State → Type 0
  ServiceThere service (ok found) s t = s ≡ t
  ServiceThere service (err e) s t =
      (made : Objects.Service) × ((W.services.create client service s).0 ≡ ok made)
      × ((W.services.create client service s).1 ≡ t)

  -- An ingress is created.
  abbrev pub IngressMade : Ingress → W.State → W.State → Type 0
  IngressMade ingress s t =
      (made : Ingress) × ((W.ingresses.create client ingress s).0 ≡ ok made)
      × ((W.ingresses.create client ingress s).1 ≡ t)

  abbrev pub Exposed : Bool → Props.Service → W.State → W.State → Type 0
  Exposed true svc s t = IngressMade (kube_ingress client.namespace agent_id svc) s t
  Exposed false svc s t =
      let got = W.services.get client svc.name s in
      ServiceThere (kube_service client.namespace agent_id svc) got.0 got.1 t

  -- One service after the other: a service of type "Ingress" is created as an ingress; any other is
  -- there, or is created.
  abbrev pub AllExposed : List Props.Service → W.State → W.State → Type 0
  AllExposed [] s t = s ≡ t
  AllExposed (svc ∷ services) s t =
      (u : W.State) × Exposed (svc.service_type == "Ingress") svc s u × AllExposed services u t

  service_there :
      (service : Objects.Service) (r : Result Objects.Service) (s t : W.State)
      → Runs (service_if_absent W client service r) s tt t ↔ ServiceThere service r s t
  service_there service (ok found) s t = (pure-Runs _ _, Runs-pure _)
  service_there service (err e) s t = (
    λ h. call-step _ _ _ _ h λ made asked h1. (made, asked, pure-Runs _ _ h1),
    λ (made, asked, end). Runs-called _ _ _ asked (Runs-pure _ end),
  )

  ingress_made :
      (ingress : Ingress) (s t : W.State)
      → Runs {A = Unit {0}} (do call (W.ingresses.create client ingress); pure tt) s tt t
        ↔ IngressMade ingress s t
  unfolding call
  ingress_made ingress s t = (
    λ h. plain-step _ _ _ h λ made asked h1. (made, of_result-returns _ asked, pure-Runs _ _ h1),
    λ (made, asked, end).
        Runs-bind _ _ (Runs-call (W.ingresses.create client ingress) s asked) (Runs-pure _ end),
  )

  create_service-Exposed :
      (svc : Props.Service) (s t : W.State)
      → Runs (create_service W client client.namespace agent_id svc) s tt t
        ↔ Exposed (svc.service_type == "Ingress") svc s t
  unfolding create_service
  create_service-Exposed svc s t = elim (Bool-cases (svc.service_type == "Ingress")) [
    | inl same ↦ rw same (ingress_made (kube_ingress client.namespace agent_id svc) s t)
    | inr other ↦ rw other (service_there (kube_service client.namespace agent_id svc) _ _ t)
  ]

  pub create_services-AllExposed :
      (services : List Props.Service) (s t : W.State)
      → Runs (create_services W client client.namespace agent_id services) s tt t
        ↔ AllExposed services s t
  unfolding create_services
  create_services-AllExposed [] s t = (pure-Runs _ _, Runs-pure _)
  create_services-AllExposed (svc ∷ services) s t = (
    λ h. plain-step _ _ _ h λ u made h1. (
      _,
      (create_service-Exposed svc s _).0 (made, refl),
      (create_services-AllExposed services _ t).0 h1,
    ),
    λ (u, one, rest).
        Runs-bind _ _ ((create_service-Exposed svc s u).1 one)
          ((create_services-AllExposed services u t).1 rest),
  )
