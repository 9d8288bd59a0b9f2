-- ===== src/Actions/VolumeManager/Rebuild.antt =====
-- The pod that is created again, and the settings that go with it.
use kubernetes_cpi.Base.{
  String, ◌≡◌, refl, sym, ap, ◌∙◌, ◌≢◌, ◌&&◌, Option, none, some, Dict, lookup, dict_of,
  lookup-insert, lookup-erase, erase-insert, ◌==◌, eq_iff, if◌then◌else◌, Bool-cases, inl, inr,
}
use kubernetes_cpi.Agent
use kubernetes_cpi.Kube.Objects.{Pod}
use kubernetes_cpi.Actions.Names.{ip_address, mount_path_of}
use kubernetes_cpi.Actions.Volumes.{Operation, add, remove, update_volumes}
use kubernetes_cpi.Actions.VolumeManager.{
  text_of, text_at, keep_address, rebuild, update_disks, no_status,
}

pub lookup-keep_address :
    (annotations : Option (Dict String)) (pod_ip j : String)
    → lookup j (keep_address annotations pod_ip) ≡ (
        if text_at ip_address annotations == "" && ip_address == j
        then some pod_ip
        else lookup j (dict_of annotations))
unfolding keep_address
lookup-keep_address annotations pod_ip j =
    elim (Bool-cases (text_at ip_address annotations == "")) [
      | inl blank ↦ rw blank (lookup-insert ip_address j pod_ip (dict_of annotations))
      | inr kept ↦ rw kept refl
    ]

recorded_address :
    (annotations : Option (Dict String)) (pod_ip : String)
    → text_at ip_address (some (keep_address annotations pod_ip))
      ≡ (if text_at ip_address annotations == "" then pod_ip else text_at ip_address annotations)
recorded_address annotations pod_ip = elim (Bool-cases (text_at ip_address annotations == "")) [
  | inl blank ↦ ap text_of (lookup-keep_address annotations pod_ip ip_address) ∙ rw blank
  | inr kept ↦ ap text_of (lookup-keep_address annotations pod_ip ip_address) ∙ rw (kept)
]

-- The recreated pod records an address: the one recorded before if that is not empty, else the one
-- that the pod had. Every other annotation, the name, the namespace and the labels are kept, the
-- spec changes by the volumes alone, and the status is empty.
pub rebuild_lem :
    (op : Operation) (disk_id : String) (pod : Pod)
    → let old = text_at ip_address pod.meta.annotations in
      let new = rebuild op disk_id pod in
      (text_at ip_address new.meta.annotations ≡ (if old == "" then pod.status.pod_ip else old))
      × ((j : String)
          → lookup j (dict_of new.meta.annotations) ≡ (
              if old == "" && ip_address == j
              then some pod.status.pod_ip
              else lookup j (dict_of pod.meta.annotations)))
      × (new.meta.name ≡ pod.meta.name)
      × (new.meta.namespace ≡ pod.meta.namespace)
      × (new.meta.labels ≡ pod.meta.labels)
      × (new.spec ≡ update_volumes op pod.spec disk_id)
      × (new.status ≡ no_status)
unfolding rebuild
rebuild_lem op disk_id pod = (
  recorded_address pod.meta.annotations pod.status.pod_ip,
  lookup-keep_address pod.meta.annotations pod.status.pod_ip,
  refl,
  refl,
  refl,
  refl,
  refl,
)

-- Whatever status the recreated pod gets, another attachment or removal keeps its address.
pub rebuild-address_stable :
    (op op' : Operation) (disk_id disk_id' : String) (pod pod' : Pod)
    → text_at ip_address (rebuild op disk_id pod).meta.annotations ≢ ""
    → pod'.meta.annotations ≡ (rebuild op disk_id pod).meta.annotations
    → text_at ip_address (rebuild op' disk_id' pod').meta.annotations
      ≡ text_at ip_address (rebuild op disk_id pod).meta.annotations
rebuild-address_stable op op' disk_id disk_id' pod pod' filled same =
    elim (Bool-cases (text_at ip_address pod'.meta.annotations == "")) [
      | inl blank ↦ absurd (filled (ap (text_at ip_address) (sym same) ∙ (eq_iff _ _).0 blank))
      | inr kept ↦ (rebuild_lem op' disk_id' pod').0 ∙ rw kept (ap (text_at ip_address) same)
    ]

abbrev pub mounted : Operation → String → Option String
mounted add disk_id = some (mount_path_of disk_id)
mounted remove disk_id = none

-- The settings list the attached disk at its mount path, and do not list a detached one; the entry
-- of every other disk and all other settings are kept.
pub update_disks_lem :
    (op : Operation) (disk_cid disk_id : String) (settings : Agent.Settings)
    → let new = update_disks op disk_cid disk_id settings in
      ((j : String)
        → lookup j (dict_of new.disks.persistent) ≡ (
            if disk_cid == j
            then mounted op disk_id
            else lookup j (dict_of settings.disks.persistent)))
      × (new ≡ record settings { disks = new.disks })
unfolding update_disks
update_disks_lem add disk_cid disk_id settings = (λ j. lookup-insert disk_cid j _ _, refl)
update_disks_lem remove disk_cid disk_id settings = (λ j. lookup-erase disk_cid j _, refl)

-- Detaching a disk takes back from the settings what attaching it put there, if the disk was not
-- listed before and the list was there.
pub update_disks-remove_add :
    (disk_cid disk_id : String) (settings : Agent.Settings) (disks : Dict String)
    → settings.disks.persistent ≡ some disks
    → lookup disk_cid disks ≡ none
    → update_disks remove disk_cid disk_id (update_disks add disk_cid disk_id settings) ≡ settings
unfolding update_disks
update_disks-remove_add disk_cid disk_id settings disks p fresh =
    ap (λ (d : Option (Dict String)). record settings { disks = record { persistent = d } })
      (rw p (ap some (erase-insert disk_cid (mount_path_of disk_id) disks fresh)))
