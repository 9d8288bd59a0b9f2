-- ===== src/Actions/VolumeManager/Safety.antt =====
-- Which calls can panic.
use kubernetes_cpi.Base.{ℕ, String, ◌≡◌, sym, ◌∙◌, true, Option, none, some, Dict, lookup}
use kubernetes_cpi.Exec.{Error, ok, err, assign}
use kubernetes_cpi.Exec.Safe.{
  NoPanic, Safe, Safe-bind, Safe-bind-lift, Safe-lift, safe_rules, Safe-if, Safe-fail, Safe-then,
  Safe-wrapping,
}
use kubernetes_cpi.Agent.{Settings}
use kubernetes_cpi.Cid.Laws.{has_colon, parse_vmcid-NoPanic, parse_disk_cid-NoPanic}
use kubernetes_cpi.Kube.Watch.Laws.{watch_loop-NoPanic}
use kubernetes_cpi.Actions.VolumeManager.Waiting.{running}
use kubernetes_cpi.Kube.World.{World, Client}
use kubernetes_cpi.Actions.Volumes.{Operation, add, remove}
use kubernetes_cpi.Actions.VolumeManager.{
  text_at, update_config_map_disks, wait_for_pod, recreate_pod, attach_disk, detach_disk,
  change_disk, VolumeManager,
}

ok_ne_err : {A : Type 0} {a : A} {e : Error} → ok a ≡ err e → ⊥
ok_ne_err h = cc

module _ (W : World) {e : Error} (blank : W.unmarshal_settings "" ≡ err e) where
  assign-NoPanic :
      (k v : String) (contents : Option (Dict String)) {settings : Settings}
      → W.unmarshal_settings (text_at k contents) ≡ ok settings
      → NoPanic (assign k v contents)
  unfolding lookup
  assign-NoPanic k v none h = absurd (ok_ne_err (sym h ∙ blank))
  assign-NoPanic k v (some contents) h = tt

  update_config_map_disks-Safe :
      (client : Client) (op : Operation) (agent_id disk_id : String)
      → Safe (update_config_map_disks W client op agent_id disk_id)
  unfolding update_config_map_disks
  update_config_map_disks-Safe client op agent_id disk_id = Safe-bind _ _ (search safe_rules) λ cm.
      Safe-bind-lift _ _ _ λ settings read. Safe-bind _ _ (search safe_rules) λ json.
        Safe-bind _ _ (Safe-lift _ (assign-NoPanic _ json cm.contents read))
          λ contents. search safe_rules

  wait_for_pod-Safe :
      (timeout : ℕ) (client : Client) (agent_id resource_version : String)
      → Safe (wait_for_pod W timeout client agent_id resource_version)
  unfolding wait_for_pod
  wait_for_pod-Safe timeout client agent_id resource_version =
      Safe-bind _ _ (search safe_rules) λ selector. Safe-bind _ _ (search safe_rules) λ signals.
        Safe-lift _
          (watch_loop-NoPanic running _ "Pod create failed with a timeout" signals (λ pod. tt))

  recreate_pod-Safe :
      (v : VolumeManager) (client : Client) (op : Operation) (agent_id disk_id : String)
      → Safe (recreate_pod W v client op agent_id disk_id)
  unfolding recreate_pod
  recreate_pod-Safe v client op agent_id disk_id = Safe-bind _ _ (search safe_rules) λ pod.
      Safe-then _ _ (Safe-wrapping _ _ (update_config_map_disks-Safe client op agent_id disk_id)) (
        Safe-then _ _ (search safe_rules) (
          Safe-bind _ _ (search safe_rules) λ updated.
            Safe-then _ _ (Safe-wrapping _ _ (wait_for_pod-Safe _ client agent_id _))
              (record { at = λ s. tt })))

  -- Attaching a disk and detaching it do not panic on ids that have a colon, if an empty text is
  -- no JSON value.
  pub change_disk-NoPanic :
      (v : VolumeManager) (vmcid disk_cid : String) (s : W.State)
      → has_colon vmcid ≡ true
      → has_colon disk_cid ≡ true
      → NoPanic (attach_disk W v vmcid disk_cid s).0 × NoPanic (detach_disk W v vmcid disk_cid s).0
  unfolding attach_disk detach_disk
  change_disk-NoPanic v vmcid disk_cid s hv hd = ((both add _).at s, (both remove _).at s)
    where
      both : (op : Operation) (message : String) → Safe (change_disk W v op message vmcid disk_cid)
      both op message = Safe-bind _ _ (Safe-lift _ (parse_vmcid-NoPanic vmcid hv)) λ vm.
          Safe-bind _ _ (Safe-lift _ (parse_disk_cid-NoPanic disk_cid hd)) λ disk.
            Safe-if _ _ _ (Safe-fail _) (
              Safe-bind _ _ (search safe_rules)
                λ client. Safe-wrapping _ _ (recreate_pod-Safe v client op vm.1 disk.1))
