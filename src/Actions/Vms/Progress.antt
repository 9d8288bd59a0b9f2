-- ===== src/Actions/Vms/Progress.antt =====
-- When `Delete` of a VM succeeds.
use kubernetes_cpi.Base.{String, ◌<>◌, ◌≡◌, refl, ◌↔◌, List, [], ◌∷◌}
use kubernetes_cpi.Exec.{returns, ok, ◌>>=◌}
use kubernetes_cpi.Exec.Returns.{
  Runs, call-step, result-step, lift-step, wrapped-step, wrapping-Runs, pure-Runs,
  of_result-returns,
}
use kubernetes_cpi.Cid.{parse_vmcid}
use kubernetes_cpi.Kube.Objects.{Service}
use kubernetes_cpi.Kube.World.{World, Client}
use kubernetes_cpi.Actions.Names.{agent_name, agent_id_label}
use kubernetes_cpi.Actions.Vms.Missing.{DeletedOrMissing, unless_not_found_iff}
use kubernetes_cpi.Actions.Vms.{
  delete_pod, delete_config_map, delete_each, delete_services, delete_vm,
}

module _ (W : World) where
  -- Each service in turn is deleted; that one is missing does not count as done.
  abbrev pub EachDeleted : Client → List Service → W.State → W.State → Type 0
  EachDeleted client [] s t = s ≡ t
  EachDeleted client (service ∷ services) s t =
      ((W.services.delete client service.meta.name 0 s).0 ≡ ok tt)
      × EachDeleted client services (W.services.delete client service.meta.name 0 s).1 t

  deleted_each :
      (client : Client) (services : List Service) (s t : W.State)
      → Runs (delete_each W client services) s tt t
      → EachDeleted client services s t
  unfolding delete_each
  deleted_each client [] s t h = pure-Runs _ _ h
  deleted_each client (service ∷ services) s t h =
      call-step _ _ _ _ h λ u deleted h1. (deleted, deleted_each client services _ t h1)

  each_deleted :
      (client : Client) (services : List Service) (s t : W.State)
      → EachDeleted client services s t
      → Runs (delete_each W client services) s tt t
  unfolding delete_each ◌>>=◌
  each_deleted client [] s t h = (refl, h)
  each_deleted client (service ∷ services) s t (deleted, h) =
      rw (deleted) (each_deleted client services _ t h)

  -- The pod and the config map are deleted or missing, and the services that are listed for the
  -- agent are deleted.
  abbrev pub Removed : String → W.State → W.State → Type 0
  Removed vmcid s t =
      (context : String) × (agent_id : String) × (client : Client) × (selector : String)
      × (services : List Service) × (s1 : W.State) × (parse_vmcid vmcid
          ≡ returns (context, agent_id))
      × ((W.new_client context s).0 ≡ ok client)
      × (W.parse_selector (agent_id_label <> "=" <> agent_id) ≡ ok selector)
      × (let pod = W.pods.delete client (agent_name agent_id) 0 (W.new_client context s).1 in
          let list = W.services.list client selector pod.1 in
          let config_map = W.config_maps.delete client (agent_name agent_id) 0 s1 in
          DeletedOrMissing pod.0
          × (list.0 ≡ ok services)
          × EachDeleted client services list.1 s1
          × DeletedOrMissing config_map.0
          × (config_map.1 ≡ t))

  removed : (vmcid : String) (s t : W.State) → Runs (delete_vm W vmcid) s tt t → Removed vmcid s t
  unfolding delete_vm delete_pod delete_services delete_config_map
  removed vmcid s t h = lift-step _ _ _ h λ vm parsed h1. call-step _ _ _ _ h1 λ client found h2.
      wrapped-step _ _ _ _ h2 λ u pod_deleted h3. wrapped-step _ _ _ _ h3 λ u' services_deleted h4.
        let (config_deleted, end) = wrapping-Runs _ _ _ h4 in
        result-step _ _ _ _ (services_deleted, refl)
          λ selector selected g1. call-step _ _ _ _ g1 λ services listed g2. (
            vm.0,
            vm.1,
            client,
            selector,
            services,
            _,
            parsed,
            found,
            selected,
            (
              (unless_not_found_iff _).0 (of_result-returns _ pod_deleted),
              listed,
              deleted_each client services _ _ g2,
              (unless_not_found_iff _).0 (of_result-returns _ config_deleted),
              end,
            ),
          )

  removes : (vmcid : String) (s t : W.State) → Removed vmcid s t → Runs (delete_vm W vmcid) s tt t
  unfolding delete_vm delete_pod delete_services delete_config_map ◌>>=◌
  removes vmcid s t
        (
          context,
          agent_id,
          client,
          selector,
          services,
          s1,
          parsed,
          found,
          selected,
          (pod_deleted, listed, deleted, config_deleted, end),
        ) =
      let (done, at) = each_deleted client services _ s1 deleted in
      rw (parsed) (
        rw (found) (
          rw ((unless_not_found_iff _).1 pod_deleted) (
            rw (selected) (
              rw (listed) (
                rw (done)
                  (rw (at) (rw ((unless_not_found_iff _).1 config_deleted) (refl, end))))))))

  -- Deleting a VM succeeds exactly if its id names a context with a client, the label of the agent
  -- can be selected, the pod and the config map of the agent are deleted or are reported missing, the
  -- services of the agent are listed, and each of them is deleted; and then it ends where these
  -- calls have led.
  pub delete_vm_iff :
      (vmcid : String) (s t : W.State) → Runs (delete_vm W vmcid) s tt t ↔ Removed vmcid s t
  delete_vm_iff vmcid s t = (removed vmcid s t, removes vmcid s t)
