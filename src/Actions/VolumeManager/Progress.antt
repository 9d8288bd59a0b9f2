-- ===== src/Actions/VolumeManager/Progress.antt =====
-- When an attachment or removal succeeds.
use kubernetes_cpi.Base.{
  ℕ, String, ◌<>◌, ◌≡◌, refl, sym, ap, subst, ◌∙◌, ◌↔◌, Option, none, some, List, Dict, insert,
  ◌==◌, eq_iff, eq_refl, Bool-cases, inl, inr,
}
use kubernetes_cpi.Exec.{returns, ok, assign, lift, ◌>>=◌}
use kubernetes_cpi.Exec.Returns.{
  Runs, call-step, result-step, lift-step, wrapped-step, pure-Runs, fail-Runs, wrapping-Runs,
}
use kubernetes_cpi.Agent.{Settings}
use kubernetes_cpi.Cid.{new_disk_cid, parse_vmcid, parse_disk_cid}
use kubernetes_cpi.Kube.Objects.{Pod, ConfigMap}
use kubernetes_cpi.Kube.Watch.{Signal}
use kubernetes_cpi.Kube.Watch.Laws.{Succeeds, watch_loop-success}
use kubernetes_cpi.Kube.World.{World, Client}
use kubernetes_cpi.Actions.Names.{agent_name, agent_id_label}
use kubernetes_cpi.Actions.Volumes.{Operation, add, remove}
use kubernetes_cpi.Actions.VolumeManager.Reference.{
  changed_pod, changed_settings, rebuild-changed_pod, update_disks-changed_settings,
}
use kubernetes_cpi.Actions.VolumeManager.{
  VolumeManager, text_at, update_config_map_disks, is_agent_container_running, wait_for_pod,
  rebuild, recreate_pod, change_disk, attach_disk, detach_disk,
}

module _ (W : World) (client : Client) (op : Operation) (agent_id disk_id : String) where
  -- The config map has contents, its settings are read and written, and the update is accepted.
  abbrev pub Rewritten : W.State → W.State → Type 0
  Rewritten s t =
      (cm : ConfigMap) × (settings : Settings) × (json : String) × (contents : Dict String)
      × (stored : ConfigMap) × ((W.config_maps.get client (agent_name agent_id) s).0 ≡ ok cm)
      × (W.unmarshal_settings (text_at "instance_settings" cm.contents) ≡ ok settings)
      × (W.marshal_settings
            (changed_settings op (new_disk_cid client.context disk_id) disk_id settings)
          ≡ ok json)
      × (cm.contents ≡ some contents)
      × (let asked =
            W.config_maps.update client
              (record cm { contents = some (insert "instance_settings" json contents) })
              (W.config_maps.get client (agent_name agent_id) s).1 in
          (asked.0 ≡ ok stored) × (asked.1 ≡ t))

  assigned_to :
      (k x : String) (m : Option (Dict String)) {m' : Option (Dict String)}
      → assign k x m ≡ returns m'
      → (contents : Dict String) × (m ≡ some contents) × (m' ≡ some (insert k x contents))
  assigned_to k x none h = cc
  assigned_to k x (some m) h = (m, refl, cc)

  rewriting :
      (s t : W.State)
      → Runs (update_config_map_disks W client op agent_id disk_id) s tt t
      → Rewritten s t
  unfolding update_config_map_disks
  rewriting s t h = call-step _ _ _ _ h λ cm got h1. result-step _ _ _ _ h1 λ settings read h2.
      result-step _ _ _ _ h2 λ json written h3. lift-step _ _ _ h3 λ new assigned h4.
        call-step _ _ _ _ h4 λ stored updated h5.
          let (contents, held, same) = assigned_to _ json cm.contents assigned in
          let s1 = (W.config_maps.get client (agent_name agent_id) s).1 in
          (
            cm,
            settings,
            json,
            contents,
            stored,
            got,
            read,
            ap W.marshal_settings (sym (update_disks-changed_settings op _ disk_id settings))
                ∙ written,
            held,
            (
              ap (λ m. (W.config_maps.update client (record cm { contents = m }) s1).0) (sym same)
                  ∙ updated,
              ap (λ m. (W.config_maps.update client (record cm { contents = m }) s1).1) (sym same)
                  ∙ pure-Runs _ _ h5,
            ),
          )

  rewrites :
      (s t : W.State)
      → Rewritten s t
      → Runs (update_config_map_disks W client op agent_id disk_id) s tt t
  unfolding update_config_map_disks ◌>>=◌
  rewrites s t (cm, settings, json, contents, stored, got, read, written, held, (updated, end)) =
      let marshalled =
        ap W.marshal_settings
          (update_disks-changed_settings op (new_disk_cid client.context disk_id) disk_id settings)
        ∙ written in
      rw (got) (rw (read) (rw (marshalled) (rw (held) (rw (updated) (refl, end)))))

  -- The watch of the agent's pod shows it running before the timer and before anything unexpected.
  abbrev pub SeenRunning : ℕ → String → W.State → W.State → Type 0
  SeenRunning timeout version s t =
      (selector : String) × (signals : List (Signal Pod)) × (W.parse_selector
          (agent_id_label <> "=" <> agent_id)
        ≡ ok selector)
      × (let watched =
            W.pods.watch client (record { label_selector = selector; resource_version = version })
              timeout s in
          (watched.0 ≡ ok signals) × (watched.1 ≡ t))
      × Succeeds (λ pod. returns (is_agent_container_running pod)) "Unexpected pod watch event: %s"
          "Pod create failed with a timeout" signals

  waiting :
      (timeout : ℕ) (version : String) (s t : W.State)
      → Runs (wait_for_pod W timeout client agent_id version) s tt t
      → SeenRunning timeout version s t
  unfolding wait_for_pod lift
  waiting timeout version s t h = result-step _ _ _ _ h λ selector parsed h1.
      call-step _ _ _ _ h1 λ signals watched h2.
        (selector, signals, parsed, (watched, h2.1), (watch_loop-success _ _ _ signals).0 (h2.0))

  awaits :
      (timeout : ℕ) (version : String) (s t : W.State)
      → SeenRunning timeout version s t
      → Runs (wait_for_pod W timeout client agent_id version) s tt t
  unfolding wait_for_pod ◌>>=◌
  awaits timeout version s t (selector, signals, parsed, (watched, end), shown) =
      rw (parsed) (rw (watched) ((watch_loop-success _ _ _ signals).1 shown, end))

  -- Each call of a recreation is answered, and the new pod is seen running.
  abbrev pub Recreated : VolumeManager → W.State → W.State → Type 0
  Recreated v s t =
      (pod : Pod) × (updated : Pod) × (s1 : W.State) × (s2 : W.State) × ((W.pods.get client
          (agent_name agent_id) s).0
        ≡ ok pod)
      × Rewritten (W.pods.get client (agent_name agent_id) s).1 s1
      × ((W.pods.delete client (agent_name agent_id) 0 s1).0 ≡ ok tt)
      × (let made =
            W.pods.create client (changed_pod op disk_id pod)
              (W.pods.delete client (agent_name agent_id) 0 s1).1 in
          (made.0 ≡ ok updated)
          × SeenRunning v.pod_ready_timeout updated.meta.resource_version made.1 s2)
      × (W.sleep v.post_recreate_delay s2 ≡ t)

  -- The pod that is created is the changed one.
  made_of :
      (pod : Pod) {updated : Pod} {timeout : ℕ} {s s2 : W.State}
      → (let made = W.pods.create client (rebuild op disk_id pod) s in
          (made.0 ≡ ok updated) × SeenRunning timeout updated.meta.resource_version made.1 s2)
      → (let made = W.pods.create client (changed_pod op disk_id pod) s in
          (made.0 ≡ ok updated) × SeenRunning timeout updated.meta.resource_version made.1 s2)
  made_of pod {updated} {timeout} {s} {s2} h =
      subst
        (λ p.
          let made = W.pods.create client p s in
          (made.0 ≡ ok updated) × SeenRunning timeout updated.meta.resource_version made.1 s2)
        (rebuild-changed_pod op disk_id pod) h

  recreating :
      (v : VolumeManager) (s t : W.State)
      → Runs (recreate_pod W v client op agent_id disk_id) s tt t
      → Recreated v s t
  unfolding recreate_pod
  recreating v s t h = call-step _ _ _ _ h λ pod got h1. wrapped-step _ _ _ _ h1 λ u changed h2.
      call-step _ _ _ _ h2 λ u' deleted h3. call-step _ _ _ _ h3 λ updated created h4.
        wrapped-step _ _ _ _ h4 λ u'' waited h5. (
          pod,
          updated,
          _,
          _,
          got,
          rewriting _ _ (changed, refl),
          deleted,
          made_of pod (created, waiting v.pod_ready_timeout _ _ _ (waited, refl)),
          h5.1,
        )

  recreates :
      (v : VolumeManager) (s t : W.State)
      → Recreated v s t
      → Runs (recreate_pod W v client op agent_id disk_id) s tt t
  unfolding recreate_pod ◌>>=◌
  recreates v s t (pod, updated, s1, s2, got, rewritten, deleted, (created, seen), end) =
      let (changed, at1) = rewrites _ s1 rewritten in
      let (waited, at2) = awaits v.pod_ready_timeout _ _ s2 seen in
      rw (got) (
        rw (changed) (
          rw (at1) (
            rw (deleted) (
              rw (rebuild-changed_pod op disk_id pod) (
                rw (created) (rw (waited) (refl, ap (W.sleep v.post_recreate_delay) at2 ∙ end)))))))

module _ (W : World) (v : VolumeManager) (vmcid disk_cid : String) where
  -- The ids name one context and its client; there the pod of the agent is recreated for the disk.
  abbrev pub Proceeds : Operation → W.State → W.State → Type 0
  Proceeds op s t =
      (context : String) × (agent_id : String) × (disk_id : String) × (client : Client)
      × (parse_vmcid vmcid ≡ returns (context, agent_id))
      × (parse_disk_cid disk_cid ≡ returns (context, disk_id))
      × ((W.new_client context s).0 ≡ ok client)
      × Recreated W client op agent_id disk_id v (W.new_client context s).1 t

  changing :
      (op : Operation) (message : String) (s t : W.State)
      → Runs (change_disk W v op message vmcid disk_cid) s tt t
      → Proceeds op s t
  unfolding change_disk
  changing op message s t h = lift-step _ _ _ h λ vm vm_parsed h1.
      lift-step _ _ _ h1 λ disk disk_parsed h2. elim (Bool-cases (disk.0 == vm.0)) [
        | inr differ ↦ absurd (fail-Runs _ s (rw differ at h2))
        | inl same ↦ call-step _ _ _ _ (rw same at h2) λ client found h3.
            let one : disk.0 ≡ vm.0 = (eq_iff _ _).0 same in
            (
              vm.0,
              vm.1,
              disk.1,
              client,
              vm_parsed,
              disk_parsed ∙ ap (λ c. returns (c, disk.1)) one,
              rw (← one) found,
              rw (← one) (recreating W client op vm.1 disk.1 v _ t (wrapping-Runs message _ _ h3)),
            )
      ]

  changes :
      (op : Operation) (message : String) (s t : W.State)
      → Proceeds op s t
      → Runs (change_disk W v op message vmcid disk_cid) s tt t
  unfolding change_disk ◌>>=◌
  changes op message s t (context, agent_id, disk_id, client, vm, disk, found, recreated) =
      let (done, end) = recreates W client op agent_id disk_id v _ t recreated in
      rw (vm) (rw (disk) (rw (eq_refl context) (rw (found) (rw (done) (refl, end)))))

  -- Attaching succeeds exactly if the ids name one context with a client, the agent's pod is there,
  -- the settings in its config map can be read, and written back with the disk at the path of its
  -- mount, the pod can be deleted and created again without a status, with its address noted, the
  -- disk's volume last and its mount last in the first container of the agent, and the watch for the
  -- agent's label can be opened and shows the pod running in time; and then it ends where these calls
  -- and the delay have led. The same holds of detaching, with the settings without the disk, and with
  -- the first volume of the disk's name and the first such mount in each container of the agent gone.
  pub attach_detach_disk_iff :
      (s t : W.State)
      → (Runs (attach_disk W v vmcid disk_cid) s tt t ↔ Proceeds add s t)
        × (Runs (detach_disk W v vmcid disk_cid) s tt t ↔ Proceeds remove s t)
  unfolding attach_disk detach_disk
  attach_detach_disk_iff s t =
      ((changing add _ s t, changes add _ s t), (changing remove _ s t, changes remove _ s t))
