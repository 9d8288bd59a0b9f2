-- ===== src/Actions/Attached/Detach.antt =====
-- A disk is detached, and no longer listed.
use kubernetes_cpi.Base.{
  String, ◌≡◌, refl, sym, ap, ◌∙◌, true, some, List, [], ◌∷◌, ◌++◌, lookup, dict_of, ◌==◌, eq_refl,
}
use kubernetes_cpi.Exec.{Outcome, returns, fails, panics, waits, Result, ok}
use kubernetes_cpi.Cid.{parse_vmcid, parse_disk_cid}
use kubernetes_cpi.Kube.Objects.{PodSpec, PersistentVolumeClaim, Volume}
use kubernetes_cpi.Kube.World.{World, Client}
use kubernetes_cpi.Kube.Server.{Server}
use kubernetes_cpi.Actions.Names.{agent_name, disk_name, disk_id_label}
use kubernetes_cpi.Actions.Volumes.{remove, update_volumes, drop_volume, disk_volume}
use kubernetes_cpi.Actions.Volumes.Laws.{NoVolume}
use kubernetes_cpi.Actions.VolumeManager.{VolumeManager, detach_disk}
use kubernetes_cpi.Actions.VolumeManager.Attach.{detach_disk-effect}
use kubernetes_cpi.Actions.VolumeManager.Views.{attach_detach-Keeps}
use kubernetes_cpi.Actions.Vms.{get_disks}
use kubernetes_cpi.Actions.Vms.Listing.{listed, joined, listed-append, listed-disk}
use kubernetes_cpi.Actions.Attached.{Reads, new-parse_disk_cid, get_disks-listed, listed_after}

drop_volume-first :
    (name : String) (volumes before after : List Volume) (v : Volume)
    → volumes ≡ before ++ (v ∷ after)
    → NoVolume name before
    → (v.name == name) ≡ true
    → drop_volume name volumes ≡ before ++ after
unfolding drop_volume
drop_volume-first name volumes [] after v split h e = rw (split) (rw e)
drop_volume-first name volumes (b ∷ before) after v split (other, h) e =
    rw (split) (
      rw other (ap (λ (l : List Volume). b ∷ l) (drop_volume-first name _ before after v refl h e)))

module _ (claim : String → Result PersistentVolumeClaim) (context : String) where
  taken_out :
      {disk : String} {all : List String} (before after : Outcome (List String))
      {now : Outcome (List String)}
      → joined claim context before (joined claim context (returns (disk ∷ [])) after) ≡ returns all
      → now ≡ joined claim context before after
      → (xs : List String) × (ys : List String) × (all ≡ xs ++ (disk ∷ ys))
        × (now ≡ returns (xs ++ ys))
  taken_out (returns xs) (returns ys) h e = (xs, ys, cc, e)
  taken_out (returns xs) (fails _) h e = cc
  taken_out (returns xs) (panics _) h e = cc
  taken_out (returns xs) waits h e = cc
  taken_out (fails _) ys h e = cc
  taken_out (panics _) ys h e = cc
  taken_out waits ys h e = cc

module _ (W : World) (K : Server W) (R : Reads W K) (vmcid : String) {context agent_id : String}
    {client : Client} (parsed : parse_vmcid vmcid ≡ returns (context, agent_id)) where
  module _ (v : VolumeManager) (disk_cid : String) {disk_id : String}
      (disk_parsed : parse_disk_cid disk_cid ≡ returns (context, disk_id)) where
    -- On a server on which nobody else writes and which answers readings, after a disk was detached
    -- whose volume is the first of its name, and whose claim carries its label, `GetDisks` returns
    -- what it returned before without the disk.
    pub detach_disk-get_disks :
        (s t : W.State) {spec : PodSpec} {pvc : PersistentVolumeClaim} (before after : List Volume)
        (disks : List String)
        → (W.new_client context s).0 ≡ ok client
        → K.specs s client (agent_name agent_id) ≡ some spec
        → spec.volumes ≡ before ++ (disk_volume disk_id ∷ after)
        → NoVolume (disk_name disk_id) before
        → R.claims s client (disk_name disk_id) ≡ ok pvc
        → lookup disk_id_label (dict_of pvc.meta.labels) ≡ some disk_id
        → (get_disks W vmcid s).0 ≡ returns disks
        → (detach_disk W v vmcid disk_cid s).0 ≡ returns tt
        → (detach_disk W v vmcid disk_cid s).1 ≡ t
        → (xs : List String) × (ys : List String) × (disks ≡ xs ++ (disk_cid ∷ ys))
          × ((get_disks W vmcid t).0 ≡ returns (xs ++ ys))
    unfolding update_volumes
    detach_disk-get_disks s t {spec} {pvc} before after disks found stored volumes absent claimed
          label listing done end =
        let claims = R.claims s client in
        let others = listed claims context before in
        let later = listed claims context after in
        let here : listed claims context (disk_volume disk_id ∷ []) ≡ returns (disk_cid ∷ []) =
          listed-disk claims context disk_id pvc claimed label
          ∙ ap (λ (c : String). returns (c ∷ [])) (new-parse_disk_cid disk_cid disk_parsed) in
        let old : joined claims context others
              (joined claims context (returns (disk_cid ∷ [])) later)
            ≡ returns disks =
          ap (λ o. joined claims context others (joined claims context o later)) (sym here)
          ∙ ap (joined claims context others)
              (sym (listed-append claims context (disk_volume disk_id ∷ []) after))
          ∙ sym (listed-append claims context before (disk_volume disk_id ∷ after))
          ∙ ap (listed claims context) (sym volumes)
          ∙ sym (get_disks-listed W K R vmcid parsed s found stored)
          ∙ listing in
        let new : (get_disks W vmcid t).0 ≡ joined claims context others later =
          listed_after W K R vmcid parsed v disk_cid disk_parsed remove s t found stored
            (ap R.claims (sym end)
              ∙ (attach_detach-Keeps W R.claims R.ambient v vmcid disk_cid
                  (λ _ _ _ c _ _. R.apart c) s).1)
            (detach_disk-effect W K v vmcid disk_cid s t done end)
          ∙ ap (listed claims context) (
              drop_volume-first _ spec.volumes before after _ volumes absent
                (eq_refl (disk_name disk_id)))
          ∙ listed-append claims context before after in
        taken_out claims context others later old new
