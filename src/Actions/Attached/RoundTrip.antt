-- ===== src/Actions/Attached/RoundTrip.antt =====
-- A disk is attached and detached again.
use kubernetes_cpi.Base.{
  String, ◌≡◌, sym, ap, ◌∙◌, some, ◌==◌, eq_refl, eq_iff, Bool-cases, inl, inr,
}
use kubernetes_cpi.Exec.{returns, ok}
use kubernetes_cpi.Cid.{parse_vmcid, parse_disk_cid}
use kubernetes_cpi.Kube.Objects.{PodSpec}
use kubernetes_cpi.Kube.World.{World, Client}
use kubernetes_cpi.Kube.Server.{Server}
use kubernetes_cpi.Actions.Names.{agent_name, disk_name}
use kubernetes_cpi.Actions.Volumes.{add, remove, update_volumes, add_volume}
use kubernetes_cpi.Actions.Volumes.Laws.{NoVolume, NoMounts, remove-add_volume}
use kubernetes_cpi.Actions.VolumeManager.{VolumeManager, attach_disk, detach_disk}
use kubernetes_cpi.Actions.VolumeManager.Attach.{attach_disk-effect, detach_disk-effect}
use kubernetes_cpi.Actions.VolumeManager.Views.{attach_detach-Keeps}
use kubernetes_cpi.Actions.Vms.{get_disks}
use kubernetes_cpi.Actions.Vms.Listing.{listed}
use kubernetes_cpi.Actions.Attached.{Reads, get_disks-listed, here-Changed, spec_after}

module _ (W : World) (K : Server W) (R : Reads W K) (vmcid : String) {context agent_id : String}
    {client : Client} (parsed : parse_vmcid vmcid ≡ returns (context, agent_id)) where
  module _ (v : VolumeManager) (disk_cid : String) {disk_id : String}
      (disk_parsed : parse_disk_cid disk_cid ≡ returns (context, disk_id)) where
    -- On a server on which nobody else writes and which answers readings, attaching a disk and
    -- detaching it again gives every pod of the namespace its stored spec back, and `GetDisks` of
    -- the VM the result that it had, if before no volume of the VM's pod and no mount of the
    -- agent's containers had the disk's name.
    pub attach-detach_disk :
        (s t u : W.State) {spec : PodSpec}
        → (W.new_client context s).0 ≡ ok client
        → K.specs s client (agent_name agent_id) ≡ some spec
        → NoVolume (disk_name disk_id) spec.volumes
        → NoMounts (disk_name disk_id) spec.containers
        → (attach_disk W v vmcid disk_cid s).0 ≡ returns tt
        → (attach_disk W v vmcid disk_cid s).1 ≡ t
        → (detach_disk W v vmcid disk_cid t).0 ≡ returns tt
        → (detach_disk W v vmcid disk_cid t).1 ≡ u
        → ((j : String) → K.specs u client j ≡ K.specs s client j)
          × ((get_disks W vmcid u).0 ≡ (get_disks W vmcid s).0)
    unfolding update_volumes
    attach-detach_disk s t u {spec} found stored no_volume no_mounts attached attached_to detached
          detached_to =
        let attach = attach_disk-effect W K v vmcid disk_cid s t attached attached_to in
        let detach = detach_disk-effect W K v vmcid disk_cid t u detached detached_to in
        let at_t =
          spec_after W K R vmcid parsed v disk_cid disk_parsed add s t stored
            (here-Changed W K R vmcid parsed v disk_cid disk_parsed add s t found attach) in
        let found_t = R.new_client context t s ∙ found in
        let at_u =
          spec_after W K R vmcid parsed v disk_cid disk_parsed remove t u
            {spec = add_volume spec disk_id} (at_t (agent_name agent_id) ∙ rw eq_refl)
            (here-Changed W K R vmcid parsed v disk_cid disk_parsed remove t u found_t detach) in
        let back : (j : String) → K.specs u client j ≡ K.specs s client j = λ j.
          at_u j ∙ elim (Bool-cases (agent_name agent_id == j)) [
            | inl same ↦ rw same (
                ap (λ (x : PodSpec). some x) (remove-add_volume spec disk_id no_volume no_mounts)
                ∙ sym stored
                ∙ ap (K.specs s client) ((eq_iff _ _).0 same))
            | inr other ↦ rw other (at_t j ∙ rw other)
          ] in
        let same_claims : R.claims u ≡ R.claims s =
          ap R.claims (sym detached_to)
          ∙ (attach_detach-Keeps W R.claims R.ambient v vmcid disk_cid (λ _ _ _ c _ _. R.apart c)
              t).1
          ∙ ap R.claims (sym attached_to)
          ∙ (attach_detach-Keeps W R.claims R.ambient v vmcid disk_cid (λ _ _ _ c _ _. R.apart c)
              s).0 in
        (
          back,
          get_disks-listed W K R vmcid parsed u (R.new_client context u s ∙ found)
                (back (agent_name agent_id) ∙ stored)
              ∙ ap (λ g. listed (g client) context spec.volumes) same_claims
              ∙ sym (get_disks-listed W K R vmcid parsed s found stored),
        )
