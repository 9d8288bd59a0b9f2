-- ===== src/Actions/VolumeManager/Views.antt =====
-- What attaching and detaching leave alone.
use kubernetes_cpi.Base.{ℕ, String, ◌≡◌, sym, ap, ◌∙◌, ◌==◌, eq_iff, Bool-cases, inl, inr}
use kubernetes_cpi.Exec.{returns, ok}
use kubernetes_cpi.Exec.Keeps.{
  Keeps, Leaves, keeps_rules, Keeps-fail, Keeps-wrapping, Keeps-call-bind, Keeps-lift-bind,
}
use kubernetes_cpi.Cid.{parse_vmcid}
use kubernetes_cpi.Kube.Objects.{Pod, ConfigMap}
use kubernetes_cpi.Kube.World.{World, Client, WatchOptions}
use kubernetes_cpi.Kube.Spares.{Ambient}
use kubernetes_cpi.Actions.Volumes.{Operation, add, remove}
use kubernetes_cpi.Actions.VolumeManager.{
  VolumeManager, update_config_map_disks, wait_for_pod, recreate_pod, change_disk, attach_disk,
  detach_disk,
}

-- A view of the cluster that a client's calls on pods and config maps leave alone.
pub record Apart (W : World) {X : Type 0} (view : W.State → X) (c : Client) : Type 0 where
  pub get_pod : (n : String) → Leaves view (W.pods.get c n)
  pub delete_pod : (n : String) (g : ℕ) → Leaves view (W.pods.delete c n g)
  pub create_pod : (p : Pod) → Leaves view (W.pods.create c p)
  pub watch_pod : (o : WatchOptions) (t : ℕ) → Leaves view (W.pods.watch c o t)
  pub get_config : (n : String) → Leaves view (W.config_maps.get c n)
  pub update_config : (m : ConfigMap) → Leaves view (W.config_maps.update c m)

module _ (W : World) {X : Type 0} (view : W.State → X) (M : Ambient W view) where
  module _ (c : Client) (A : Apart W view c) where
    update_config_map_disks-Keeps :
        (op : Operation) (agent_id disk_id : String)
        → Keeps view (update_config_map_disks W c op agent_id disk_id)
    unfolding update_config_map_disks
    update_config_map_disks-Keeps op agent_id disk_id =
        search (keeps_rules, A.get_config, A.update_config) depth 12

    wait_for_pod-Keeps :
        (timeout : ℕ) (agent_id resource_version : String)
        → Keeps view (wait_for_pod W timeout c agent_id resource_version)
    unfolding wait_for_pod
    wait_for_pod-Keeps timeout agent_id resource_version = search (keeps_rules, A.watch_pod)

    recreate_pod-Keeps :
        (v : VolumeManager) (op : Operation) (agent_id disk_id : String)
        → Keeps view (recreate_pod W v c op agent_id disk_id)
    unfolding recreate_pod
    recreate_pod-Keeps v op agent_id disk_id =
        let slept : Keeps {A = Unit {0}} view (λ s. (returns tt, W.sleep v.post_recreate_delay s)) =
          record { at = M.sleep v.post_recreate_delay } in
        search
          (
            keeps_rules, A.get_pod, A.delete_pod, A.create_pod, update_config_map_disks-Keeps,
            wait_for_pod-Keeps,
          )
          depth 14

  module _ (v : VolumeManager) (vmcid disk_cid : String)
      (apart : (context agent_id : String) (s : W.State) (c : Client)
        → parse_vmcid vmcid ≡ returns (context, agent_id)
        → (W.new_client context s).0 ≡ ok c
        → Apart W view c) where
    change_disk-Keeps :
        (op : Operation) (message : String) → Keeps view (change_disk W v op message vmcid disk_cid)
    unfolding change_disk
    change_disk-Keeps op message = Keeps-lift-bind _ _ λ vm parsed. Keeps-lift-bind _ _ λ disk _.
        elim (Bool-cases (disk.0 == vm.0)) [
          | inr other ↦ rw other (Keeps-fail _)
          | inl same ↦ rw same (
              Keeps-call-bind _ _ _ (M.new_client disk.0) λ s c found. Keeps-wrapping _ _ (
                recreate_pod-Keeps c
                  (apart vm.0 vm.1 s c parsed
                    (ap (λ x. (W.new_client x s).0) (sym ((eq_iff _ _).0 same)) ∙ found))
                  v op vm.1 disk.1))
        ]

    -- Attaching a disk and detaching it, with whatever result, leave every view of the cluster that
    -- the calls on pods and config maps, by clients of the VM's context, leave: what other clusters
    -- hold, and claims, services, secrets, namespaces, deployments.
    pub attach_detach-Keeps :
        (s : W.State)
        → (view (attach_disk W v vmcid disk_cid s).1 ≡ view s)
          × (view (detach_disk W v vmcid disk_cid s).1 ≡ view s)
    unfolding attach_disk detach_disk
    attach_detach-Keeps s = ((change_disk-Keeps add _).at s, (change_disk-Keeps remove _).at s)
