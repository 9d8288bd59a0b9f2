-- ===== src/Actions/Vms/Gone.antt =====
-- What a successful `Delete` has removed.
use kubernetes_cpi.Base.{
  ℕ, String, ◌<>◌, ◌≡◌, refl, sym, ap, ◌∙◌, Bool, false, List, [], ◌∷◌, ◌==◌, eq_refl,
  if◌then◌else◌, arith,
}
use kubernetes_cpi.Exec.{returns, Result, ok, err, of_result}
use kubernetes_cpi.Exec.Returns.{
  Runs, call-step, result-step, lift-step, wrapped-step, wrapping-Runs, pure-Runs,
}
use kubernetes_cpi.Cid.{parse_vmcid}
use kubernetes_cpi.Kube.Objects.{Service}
use kubernetes_cpi.Kube.World.{World, Client}
use kubernetes_cpi.Actions.Names.{agent_name, agent_id_label}
use kubernetes_cpi.Actions.Vms.Missing.{DeletedOrMissing, unless_not_found_iff}
use kubernetes_cpi.Actions.Vms.{delete_pod, delete_each, delete_services, delete_vm}

-- What the API server does with deletions: an object is gone after its deletion with no time of grace,
-- and after the answer that there is none, other objects stay, and deleting does not bring objects of another kind back.
pub record Deletes (W : World) : Type 0 where
  pub pod_exists : W.State → Client → String → Bool
  pub service_exists : W.State → Client → String → Bool
  pub config_exists : W.State → Client → String → Bool
  pub pod_gone :
      (c : Client) (n : String) (s : W.State)
      → DeletedOrMissing (W.pods.delete c n 0 s).0
      → pod_exists (W.pods.delete c n 0 s).1 c n ≡ false
  pub config_gone :
      (c : Client) (n : String) (s : W.State)
      → DeletedOrMissing (W.config_maps.delete c n 0 s).0
      → config_exists (W.config_maps.delete c n 0 s).1 c n ≡ false
  pub service_gone :
      (c : Client) (n : String) (s : W.State)
      → (W.services.delete c n 0 s).0 ≡ ok tt
      → (j : String)
      → service_exists (W.services.delete c n 0 s).1 c j
        ≡ (if n == j then false else service_exists s c j)
  pub pods_kept_listing :
      (c : Client) (l : String) (s : W.State) → pod_exists (W.services.list c l s).1 ≡ pod_exists s
  pub pods_kept :
      (c : Client) (n : String) (g : ℕ) (s : W.State)
      → pod_exists (W.services.delete c n g s).1 ≡ pod_exists s
  pub pods_kept_by_configs :
      (c : Client) (n : String) (g : ℕ) (s : W.State)
      → pod_exists (W.config_maps.delete c n g s).1 ≡ pod_exists s
  pub services_kept_by_configs :
      (c : Client) (n : String) (g : ℕ) (s : W.State)
      → service_exists (W.config_maps.delete c n g s).1 ≡ service_exists s

module _ (W : World) (K : Deletes W) (client : Client) where
  abbrev pub AllGone : W.State → List Service → Type 0
  AllGone s [] = Unit {0}
  AllGone s (service ∷ services) =
      (K.service_exists s client service.meta.name ≡ false) × AllGone s services

  of_result_ok : (r : Result (Unit {0})) {u : Unit {0}} → of_result r ≡ returns u → r ≡ ok tt
  of_result_ok (ok u) h = refl
  of_result_ok (err e) h = cc

  delete_each-keeps_gone :
      (services : List Service) (s t : W.State) (n : String)
      → Runs (delete_each W client services) s tt t
      → K.service_exists s client n ≡ false
      → K.service_exists t client n ≡ false
  unfolding delete_each
  delete_each-keeps_gone [] s t n h gone = rw (← pure-Runs _ _ h) gone
  delete_each-keeps_gone (service ∷ services) s t n h gone = call-step _ _ _ _ h λ u deleted h1.
      delete_each-keeps_gone services _ t n h1
        (K.service_gone client service.meta.name s deleted n ∙ ground (arith, gone))

  delete_each-AllGone :
      (services : List Service) (s t : W.State)
      → Runs (delete_each W client services) s tt t
      → AllGone t services
  unfolding delete_each
  delete_each-AllGone [] s t h = tt
  delete_each-AllGone (service ∷ services) s t h = call-step _ _ _ _ h λ u deleted h1. (
    delete_each-keeps_gone services _ t service.meta.name h1
        (K.service_gone client service.meta.name s deleted service.meta.name ∙ rw eq_refl),
    delete_each-AllGone services _ t h1,
  )

  delete_each-pods :
      (services : List Service) (s t : W.State)
      → Runs (delete_each W client services) s tt t
      → K.pod_exists t ≡ K.pod_exists s
  unfolding delete_each
  delete_each-pods [] s t h = rw (← pure-Runs _ _ h)
  delete_each-pods (service ∷ services) s t h =
      call-step _ _ _ _ h
        λ u deleted h1. delete_each-pods services _ t h1 ∙ K.pods_kept client service.meta.name 0 s

  same_services_gone :
      (services : List Service) (s t : W.State)
      → K.service_exists t ≡ K.service_exists s
      → AllGone s services
      → AllGone t services
  same_services_gone [] s t e h = tt
  same_services_gone (service ∷ services) s t e (gone, h) =
      (rw e gone, same_services_gone services s t e h)

module _ (W : World) (K : Deletes W) where
  -- The services of the agent that the server lists once the pod is deleted.
  abbrev pub Listed : Client → String → W.State → List Service → Type 0
  Listed client agent_id s services =
      (selector : String) × (W.parse_selector (agent_id_label <> "=" <> agent_id) ≡ ok selector)
      × ((W.services.list client selector s).0 ≡ ok services)

  delete_services-success :
      (client : Client) (agent_id : String) (s t : W.State)
      → Runs (delete_services W client agent_id) s tt t
      → (services : List Service) × Listed client agent_id s services
        × AllGone W K client t services
        × (K.pod_exists t ≡ K.pod_exists s)
  unfolding delete_services
  delete_services-success client agent_id s t h = result-step _ _ _ _ h λ selector parsed h1.
      call-step _ _ _ _ h1 λ services listed h2. (
        services,
        (selector, parsed, listed),
        delete_each-AllGone W K client services _ t h2,
        delete_each-pods W K client services _ t h2 ∙ K.pods_kept_listing client selector s,
      )

  -- The agent's pod, its config map and every service that was listed for it are gone.
  abbrev pub Deleted : String → W.State → W.State → Type 0
  Deleted vmcid s t =
      (context : String) × (agent_id : String) × (client : Client) × (services : List Service)
      × (parse_vmcid vmcid ≡ returns (context, agent_id))
      × ((W.new_client context s).0 ≡ ok client)
      × Listed client agent_id (delete_pod W client agent_id (W.new_client context s).1).1 services
      × (K.pod_exists t client (agent_name agent_id) ≡ false)
      × AllGone W K client t services
      × (K.config_exists t client (agent_name agent_id) ≡ false)

  -- On a server on which nobody else writes, after a successful deletion the agent's pod, its
  -- config map and every service that the server listed for the agent's label, once the pod was
  -- deleted, are gone from the cluster.
  pub delete_vm-success :
      (vmcid : String) (s t : W.State)
      → (delete_vm W vmcid s).0 ≡ returns tt
      → (delete_vm W vmcid s).1 ≡ t
      → Deleted vmcid s t
  unfolding delete_vm
  delete_vm-success vmcid s t r e =
      lift-step _ _ _ (r, e)
        λ vm parsed h1. call-step _ _ _ _ h1 λ client found h2.
          wrapped-step _ _ _ _ h2 λ u pod_deleted h3.
            wrapped-step _ _ _ _ h3 λ u' services_deleted h4.
              let (config_deleted, end) = wrapping-Runs _ _ _ h4 in
              let s1 = (W.new_client vm.0 s).1 in
              let s2 = (W.pods.delete client (agent_name vm.1) 0 s1).1 in
              let s3 = (delete_services W client vm.1 s2).1 in
              let (services, listed, gone, same_pods) =
                delete_services-success client vm.1 s2 s3 (services_deleted, refl) in
              (
                vm.0,
                vm.1,
                client,
                services,
                parsed,
                found,
                listed,
                ap (λ x. K.pod_exists x client (agent_name vm.1)) (sym end)
                    ∙ ap (λ g. g client (agent_name vm.1))
                        (K.pods_kept_by_configs client (agent_name vm.1) 0 s3 ∙ same_pods)
                    ∙ K.pod_gone client (agent_name vm.1) s1
                        ((unless_not_found_iff _).0 (of_result_ok W K client _ pod_deleted)),
                same_services_gone W K client services s3 t
                    (ap K.service_exists (sym end)
                      ∙ K.services_kept_by_configs client (agent_name vm.1) 0 s3)
                    gone,
                ap (λ x. K.config_exists x client (agent_name vm.1)) (sym end)
                    ∙ K.config_gone client (agent_name vm.1) s3
                        ((unless_not_found_iff _).0 (of_result_ok W K client _ config_deleted)),
              )
