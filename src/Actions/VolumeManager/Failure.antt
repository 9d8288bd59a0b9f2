-- ===== src/Actions/VolumeManager/Failure.antt =====
-- What an attachment or removal that fails leaves in the cluster.
use kubernetes_cpi.Base.{
  ℕ, String, ◌≡◌, refl, sym, ap, subst, ◌∙◌, ◌⊎◌, inl, inr, ◌==◌, eq_iff, Bool-cases, none,
  if◌then◌else◌,
}
use kubernetes_cpi.Exec.{Error, returns, fails, ok, lift}
use kubernetes_cpi.Exec.Fails.{
  Fails, Refused, Fails-fail, not-Fails-pure, wrapping-Fails, wrapped-fails, call-fails, lift-fails,
  result-fails,
}
use kubernetes_cpi.Cid.{parse_vmcid, parse_disk_cid}
use kubernetes_cpi.Kube.Objects.{Pod, ConfigMap}
use kubernetes_cpi.Kube.World.{World, Client, WatchOptions}
use kubernetes_cpi.Kube.Server.{Server}
use kubernetes_cpi.Actions.Names.{agent_name}
use kubernetes_cpi.Actions.Volumes.{Operation, add, remove}
use kubernetes_cpi.Actions.VolumeManager.{
  VolumeManager, update_config_map_disks, wait_for_pod, recreate_pod, change_disk, attach_disk,
  detach_disk,
}
use kubernetes_cpi.Actions.VolumeManager.Effect.{
  ConfigChanged, Changed, written-ConfigChanged, written-specs, gone-specs, made-Changed,
}

-- Of a server that answers a write with an error only if it wrote nothing.
pub record Refusals (W : World) (K : Server W) : Type 0 where
  pub update_config :
      (c : Client) (m : ConfigMap) (s t : W.State)
      → Refused (W.config_maps.update c m) s t
      → K.configs t ≡ K.configs s
  pub delete_pod :
      (c : Client) (n : String) (g : ℕ) (s t : W.State)
      → Refused (W.pods.delete c n g) s t
      → K.specs t ≡ K.specs s
  pub create_pod :
      (c : Client) (p : Pod) (s t : W.State)
      → Refused (W.pods.create c p) s t
      → K.specs t ≡ K.specs s

module _ (W : World) (K : Server W) (R : Refusals W K) where
  -- Nothing that the server stores differs.
  abbrev pub Untouched : W.State → W.State → Type 0
  Untouched s t = (K.specs t ≡ K.specs s) × (K.configs t ≡ K.configs s)

  module _ (client : Client) (op : Operation) (agent_id disk_id : String) where
    -- How far a recreation came: the settings are rewritten and the pod is as it was, or gone, or
    -- created with the changed volumes and not seen running.
    abbrev pub Interrupted : W.State → W.State → Type 0
    Interrupted s t =
        (ConfigChanged W K client op agent_id disk_id s t
          × ((K.specs t ≡ K.specs s)
              ⊎ ((j : String)
                  → K.specs t client j
                    ≡ (if agent_name agent_id == j then none else K.specs s client j))))
        ⊎ Changed W K client op agent_id disk_id s t

    update_config-failure :
        (s t : W.State)
        → Fails (update_config_map_disks W client op agent_id disk_id) s t
        → Untouched s t
    unfolding update_config_map_disks
    update_config-failure s t h =
        let s1 = (W.config_maps.get client (agent_name agent_id) s).1 in
        let specs1 = K.get_config_specs client (agent_name agent_id) s in
        let configs1 = K.get_config_configs client (agent_name agent_id) s in
        let stopped : s1 ≡ t → Untouched s t = λ i. subst (Untouched s) i (specs1, configs1) in
        call-fails _ _ _ _ _ h (λ (e, g, i). stopped i)
          λ cm got h1. result-fails _ _ _ _ _ h1 stopped λ settings read h2.
            result-fails _ _ _ _ _ h2 stopped λ json written h3.
              lift-fails _ _ _ _ h3 stopped λ contents assigned h4.
                call-fails _ _ _ _ _ h4
                  (λ (e, g, i). (
                    ap K.specs (sym i) ∙ K.update_config_specs client _ s1 ∙ specs1,
                    R.update_config client _ s1 t (e, g, i) ∙ configs1,
                  ))
                  λ cm' updated h5. absurd (not-Fails-pure _ _ _ h5)

    wait_for_pod-failure :
        (timeout : ℕ) (resource_version : String) (s t : W.State)
        → Fails (wait_for_pod W timeout client agent_id resource_version) s t
        → Untouched s t
    unfolding wait_for_pod lift
    wait_for_pod-failure timeout resource_version s t h =
        let watched : (o : WatchOptions) → (W.pods.watch client o timeout s).1 ≡ t → Untouched s t =
          λ o i.
            subst (Untouched s) i
              (K.watch_specs client o timeout s, K.watch_configs client o timeout s) in
        result-fails _ _ _ _ _ h (λ i. subst (Untouched s) i (refl, refl))
          λ selector parsed h1.
            call-fails _ _ _ _ _ h1 (λ (e, g, i). watched _ i) λ signals seen (e, g, i). watched _ i

    recreate_pod-failure :
        (v : VolumeManager) (s t : W.State)
        → Fails (recreate_pod W v client op agent_id disk_id) s t
        → Untouched s t ⊎ Interrupted s t
    unfolding recreate_pod
    recreate_pod-failure v s t h =
        let name = agent_name agent_id in
        let got_specs = K.get_pod_specs client name s in
        let got_configs = K.get_pod_configs client name s in
        call-fails _ _ _ _ _ h (λ (e, g, i). inl (subst (Untouched s) i (got_specs, got_configs)))
          λ pod got h1.
            wrapped-fails _ _ _ _ _ h1
              (λ g.
                let (a, b) = update_config-failure _ t g in inl (a ∙ got_specs, b ∙ got_configs))
              λ u changed h2.
                call-fails _ _ _ _ _ h2
                  (λ r. inr (
                    inl (
                      written-ConfigChanged W K client op agent_id disk_id s got changed t
                          (ap K.configs (sym (r.2)) ∙ K.delete_pod_configs client name 0 _),
                      inl (
                          R.delete_pod client name 0 _ t r
                          ∙ written-specs W K client op agent_id disk_id s got changed),
                    )))
                  λ u' deleted h3.
                    call-fails _ _ _ _ _ h3
                      (λ r. inr (
                        inl (
                          written-ConfigChanged W K client op agent_id disk_id s got changed t (
                              ap K.configs (sym (r.2))
                              ∙ K.create_pod_configs client _ _
                              ∙ K.delete_pod_configs client name 0 _),
                          inr (λ j.
                              ap (λ g. g client j) (R.create_pod client _ _ t r)
                              ∙ gone-specs W K client op agent_id disk_id s got changed deleted j),
                        )))
                      λ updated created h4.
                        wrapped-fails _ _ _ _ _ h4
                          (λ g. inr (
                            inr (
                              made-Changed W K client op agent_id disk_id s got changed deleted
                                created t (wait_for_pod-failure _ _ _ t g))))
                          λ u'' waited (e, g, i). cc

  -- What a failed change of a disk leaves: everything as it was, or an interrupted recreation of
  -- the pod of the agent that the ids name.
  abbrev pub Left : Operation → String → String → W.State → W.State → Type 0
  Left op vmcid disk_cid s t =
      Untouched s t
      ⊎ ((context : String) × (agent_id : String) × (disk_id : String) × (client : Client)
          × (parse_vmcid vmcid ≡ returns (context, agent_id))
          × (parse_disk_cid disk_cid ≡ returns (context, disk_id))
          × ((W.new_client context s).0 ≡ ok client)
          × Interrupted client op agent_id disk_id s t)

  from_client :
      (client : Client) (op : Operation) (agent_id disk_id : String) (s s1 t : W.State)
      → Interrupted client op agent_id disk_id s1 t
      → K.specs s1 ≡ K.specs s
      → K.configs s1 ≡ K.configs s
      → Interrupted client op agent_id disk_id s t
  from_client client op agent_id disk_id s s1 t h e f = rw (← e, ← f) h

  module _ (v : VolumeManager) (vmcid disk_cid : String) where
    change_disk-Left :
        (op : Operation) (message : String) (s t : W.State)
        → Fails (change_disk W v op message vmcid disk_cid) s t
        → Left op vmcid disk_cid s t
    unfolding change_disk
    change_disk-Left op message s t h =
        let same_state : s ≡ t → Left op vmcid disk_cid s t =
          λ i. inl (subst (Untouched s) i (refl, refl)) in
        lift-fails _ _ _ _ h same_state λ vm vm_parsed h1.
          lift-fails _ _ _ _ h1 same_state λ disk disk_parsed h2.
            elim (Bool-cases (disk.0 == vm.0)) [
              | inr differ ↦ same_state (Fails-fail _ s t (rw differ at h2))
              | inl same ↦
                  call-fails _ _ _ _ _ (rw same at h2)
                    (λ (e, g, i). inl (
                      subst (Untouched s) i
                        (K.new_client_specs disk.0 s, K.new_client_configs disk.0 s)))
                    λ client found h3.
                      elim (recreate_pod-failure client op vm.1 disk.1 v _ t
                        (wrapping-Fails message _ _ t h3)) [
                          | inl (a, b) ↦
                              inl
                                (a ∙ K.new_client_specs disk.0 s, b ∙ K.new_client_configs disk.0 s)
                          | inr interrupted ↦ inr (
                            vm.0,
                            vm.1,
                            disk.1,
                            client,
                            vm_parsed,
                            disk_parsed ∙ ap (λ c. returns (c, disk.1)) ((eq_iff _ _).0 same),
                            rw (← (eq_iff disk.0 vm.0).0 same) found,
                            from_client client op vm.1 disk.1 s _ t interrupted
                                (K.new_client_specs disk.0 s) (K.new_client_configs disk.0 s),
                          )
                        ]
            ]

    -- On a server on which nobody else writes, and which writes nothing when it answers with an
    -- error, an attachment that fails leaves all stored specs and contents as they were, or the ids
    -- name one context, there the settings of the agent are rewritten for the disk, and its pod is
    -- as it was, or gone, or created with the disk's volume.
    pub attach_disk-failure :
        (s t : W.State) (e : Error)
        → (attach_disk W v vmcid disk_cid s).0 ≡ fails e
        → (attach_disk W v vmcid disk_cid s).1 ≡ t
        → Left add vmcid disk_cid s t
    unfolding attach_disk
    attach_disk-failure s t e h i = change_disk-Left add _ s t (e, h, i)

    -- The same of a removal that fails.
    pub detach_disk-failure :
        (s t : W.State) (e : Error)
        → (detach_disk W v vmcid disk_cid s).0 ≡ fails e
        → (detach_disk W v vmcid disk_cid s).1 ≡ t
        → Left remove vmcid disk_cid s t
    unfolding detach_disk
    detach_disk-failure s t e h i = change_disk-Left remove _ s t (e, h, i)
