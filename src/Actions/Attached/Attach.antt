-- ===== src/Actions/Attached/Attach.antt =====
-- A disk is attached, and listed.
use kubernetes_cpi.Base.{String, ◌≡◌, sym, ap, ◌∙◌, some, [], ◌∷◌, ◌++◌, lookup, dict_of}
use kubernetes_cpi.Exec.{returns, ok, and_then}
use kubernetes_cpi.Cid.{parse_vmcid, parse_disk_cid}
use kubernetes_cpi.Kube.Objects.{PodSpec, PersistentVolumeClaim}
use kubernetes_cpi.Kube.World.{World, Client}
use kubernetes_cpi.Kube.Server.{Server}
use kubernetes_cpi.Actions.Names.{agent_name, disk_name, disk_id_label}
use kubernetes_cpi.Actions.Volumes.{add, update_volumes, disk_volume}
use kubernetes_cpi.Actions.VolumeManager.{VolumeManager, attach_disk}
use kubernetes_cpi.Actions.VolumeManager.Attach.{attach_disk-effect}
use kubernetes_cpi.Actions.VolumeManager.Views.{attach_detach-Keeps}
use kubernetes_cpi.Actions.Vms.{get_disks}
use kubernetes_cpi.Actions.Vms.Listing.{listed, joined, listed-append, listed-disk}
use kubernetes_cpi.Actions.Attached.{Reads, new-parse_disk_cid, get_disks-listed, listed_after}

module _ (W : World) (K : Server W) (R : Reads W K) (vmcid : String) {context agent_id : String}
    {client : Client} (parsed : parse_vmcid vmcid ≡ returns (context, agent_id)) where
  module _ (v : VolumeManager) (disk_cid : String) {disk_id : String}
      (disk_parsed : parse_disk_cid disk_cid ≡ returns (context, disk_id)) where
    -- On a server on which nobody else writes and which answers readings: after a disk, whose claim
    -- carries its label, was attached to a VM with a pod, `GetDisks` of the VM returns what it would
    -- have returned before, and then the disk.
    pub attach_disk-get_disks :
        (s t : W.State) {spec : PodSpec} {pvc : PersistentVolumeClaim}
        → (W.new_client context s).0 ≡ ok client
        → K.specs s client (agent_name agent_id) ≡ some spec
        → R.claims s client (disk_name disk_id) ≡ ok pvc
        → lookup disk_id_label (dict_of pvc.meta.labels) ≡ some disk_id
        → (attach_disk W v vmcid disk_cid s).0 ≡ returns tt
        → (attach_disk W v vmcid disk_cid s).1 ≡ t
        → (get_disks W vmcid t).0
          ≡ and_then (get_disks W vmcid s).0 (λ disks. returns (disks ++ (disk_cid ∷ [])))
    unfolding update_volumes
    attach_disk-get_disks s t {spec} {pvc} found stored claimed label done end =
        listed_after W K R vmcid parsed v disk_cid disk_parsed add s t found stored
          (ap R.claims (sym end)
            ∙ (attach_detach-Keeps W R.claims R.ambient v vmcid disk_cid (λ _ _ _ c _ _. R.apart c)
                s).0)
          (attach_disk-effect W K v vmcid disk_cid s t done end)
        ∙ listed-append (R.claims s client) context spec.volumes (disk_volume disk_id ∷ [])
        ∙ ap (joined (R.claims s client) context (listed (R.claims s client) context spec.volumes))
            (listed-disk (R.claims s client) context disk_id pvc claimed label
              ∙ ap (λ (c : String). returns (c ∷ [])) (new-parse_disk_cid disk_cid disk_parsed))
        ∙ ap (λ o. and_then o (λ disks. returns (disks ++ (disk_cid ∷ []))))
            (sym (get_disks-listed W K R vmcid parsed s found stored))
