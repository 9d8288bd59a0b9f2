-- ===== src/Actions/VolumeManager/Attach.antt =====
-- `AttachDisk` and `DetachDisk` as a whole.
use kubernetes_cpi.Base.{String, ◌≡◌, sym, ap, subst, ◌∙◌, ◌==◌, eq_iff, Bool-cases, inl, inr}
use kubernetes_cpi.Exec.{returns, ok}
use kubernetes_cpi.Exec.Returns.{Runs, fail-Runs, wrapping-Runs, call-step, lift-step}
use kubernetes_cpi.Cid.{parse_vmcid, parse_disk_cid}
use kubernetes_cpi.Kube.World.{World, Client}
use kubernetes_cpi.Kube.Server.{Server}
use kubernetes_cpi.Actions.Volumes.{Operation, add, remove}
use kubernetes_cpi.Actions.VolumeManager.{change_disk, attach_disk, detach_disk, VolumeManager}
use kubernetes_cpi.Actions.VolumeManager.Effect.{Changed, recreate_pod-effect}

module _ (W : World) (K : Server W) (v : VolumeManager) (vmcid disk_cid : String) where
  -- The ids name one context and its client; there, the pod and the config map of the VM's agent
  -- are changed for the disk.
  abbrev pub DiskChanged : Operation → W.State → W.State → Type 0
  DiskChanged op s t =
      (context : String) × (agent_id : String) × (disk_id : String) × (client : Client)
      × (parse_vmcid vmcid ≡ returns (context, agent_id))
      × (parse_disk_cid disk_cid ≡ returns (context, disk_id))
      × ((W.new_client context s).0 ≡ ok client)
      × Changed W K client op agent_id disk_id s t

  -- The change is that of the agent and the disk that the ids name.
  pub named-Changed :
      (op : Operation) (s t : W.State) {context agent_id disk_id : String} {client : Client}
      → parse_vmcid vmcid ≡ returns (context, agent_id)
      → parse_disk_cid disk_cid ≡ returns (context, disk_id)
      → (W.new_client context s).0 ≡ ok client
      → DiskChanged op s t
      → Changed W K client op agent_id disk_id s t
  named-Changed op s t {context} {agent_id} {disk_id} {client} parsed disk_parsed found
        (context', agent', disk', client', vm, disk, found', changed) =
      let same_vm : (context', agent') ≡ (context, agent_id) = returned (sym vm ∙ parsed) in
      let same_disk : (context', disk') ≡ (context, disk_id) = returned (sym disk ∙ disk_parsed) in
      let same_client : client' ≡ client =
        answered (sym found' ∙ ap (λ x. (W.new_client x s).0) (ap (λ p. p.0) same_vm) ∙ found) in
      subst (λ c. Changed W K c op agent_id disk_id s t) same_client
        (subst (λ a. Changed W K client' op a disk_id s t) (ap (λ p. p.1) same_vm)
          (subst (λ d. Changed W K client' op agent' d s t) (ap (λ p. p.1) same_disk) changed))
    where
      returned : {A : Type 0} {a b : A} → returns a ≡ returns b → a ≡ b
      returned h = cc

      answered : {A : Type 0} {a b : A} → ok a ≡ ok b → a ≡ b
      answered h = cc

  from_client :
      (client : Client) (op : Operation) (agent_id disk_id : String) (s s1 t : W.State)
      → Changed W K client op agent_id disk_id s1 t
      → K.specs s1 ≡ K.specs s
      → K.configs s1 ≡ K.configs s
      → Changed W K client op agent_id disk_id s t
  from_client client op agent_id disk_id s s1 t h e f = rw (← e, ← f) h

  change_disk-effect :
      (op : Operation) (message : String) (s t : W.State)
      → Runs (change_disk W v op message vmcid disk_cid) s tt t
      → DiskChanged op s t
  unfolding change_disk
  change_disk-effect op message s t h = lift-step _ _ _ h λ vm vm_parsed h1.
      lift-step _ _ _ h1 λ disk disk_parsed h2. elim (Bool-cases (disk.0 == vm.0)) [
        | inr differ ↦ absurd (fail-Runs _ s (rw differ at h2))
        | inl same ↦ call-step _ _ _ _ (rw same at h2) λ client found h3. (
          vm.0,
          vm.1,
          disk.1,
          client,
          vm_parsed,
          disk_parsed ∙ ap (λ c. returns (c, disk.1)) ((eq_iff _ _).0 same),
          rw (← (eq_iff disk.0 vm.0).0 same) found,
          from_client client op vm.1 disk.1 s _ t
              (recreate_pod-effect W K client op vm.1 disk.1 v _ t (wrapping-Runs message _ _ h3))
              (K.new_client_specs disk.0 s) (K.new_client_configs disk.0 s),
        )
      ]

  -- On a server on which nobody else writes, a successful attachment leaves the agent's pod with
  -- the disk's volume and mount added to its stored spec, and the agent's config map with the disk
  -- added to its settings; the ids named one context. No other pod's spec and no other config map
  -- in the namespace differs.
  pub attach_disk-effect :
      (s t : W.State)
      → (attach_disk W v vmcid disk_cid s).0 ≡ returns tt
      → (attach_disk W v vmcid disk_cid s).1 ≡ t
      → DiskChanged add s t
  unfolding attach_disk
  attach_disk-effect s t h e = change_disk-effect add "Recreating pod to attach disk" s t (h, e)

  -- On a server on which nobody else writes, a successful removal leaves the agent's pod with the
  -- disk's volume and mounts taken out of its stored spec, and the agent's config map with the
  -- disk taken out of its settings; the ids named one context. No other pod's spec and no other
  -- config map in the namespace differs.
  pub detach_disk-effect :
      (s t : W.State)
      → (detach_disk W v vmcid disk_cid s).0 ≡ returns tt
      → (detach_disk W v vmcid disk_cid s).1 ≡ t
      → DiskChanged remove s t
  unfolding detach_disk
  detach_disk-effect s t h e = change_disk-effect remove "Recreating pod to detach disk" s t (h, e)
