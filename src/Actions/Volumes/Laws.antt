-- ===== src/Actions/Volumes/Laws.antt =====
-- Adding a disk's volume and mount, and removing them again.
use kubernetes_cpi.Base.{
  String, ◌≡◌, refl, ap, Bool-cases, inl, inr, true, false, List, [], ◌∷◌, ◌++◌, ◌==◌, eq_refl,
}
use kubernetes_cpi.Kube.Objects.{Container, PodSpec, Volume, VolumeMount}
use kubernetes_cpi.Actions.Names.{bosh_job, disk_name}
use kubernetes_cpi.Actions.Volumes.{
  disk_volume, disk_mount, mount_in, add_volume, drop_volume, drop_mount, unmount_from,
  remove_volume,
}

-- No volume of the list has the name.
abbrev pub NoVolume : String → List Volume → Type 0
NoVolume name [] = Unit {0}
NoVolume name (v ∷ volumes) = ((v.name == name) ≡ false) × NoVolume name volumes

abbrev pub NoMount : String → List VolumeMount → Type 0
NoMount name [] = Unit {0}
NoMount name (m ∷ mounts) = ((m.name == name) ≡ false) × NoMount name mounts

-- No container of the agent mounts the name.
abbrev pub NoMounts : String → List Container → Type 0
NoMounts name [] = Unit {0}
NoMounts name (c ∷ containers) =
    (c.name == bosh_job ≡ true → NoMount name c.volume_mounts) × NoMounts name containers

drop_volume_absent :
    (name : String) (volumes : List Volume)
    → NoVolume name volumes
    → drop_volume name volumes ≡ volumes
unfolding drop_volume
drop_volume_absent name [] h = refl
drop_volume_absent name (v ∷ volumes) (ne, h) =
    rw ne (ap (λ (l : List Volume). v ∷ l) (drop_volume_absent name volumes h))

drop_volume-append :
    (name : String) (volumes : List Volume) (v : Volume)
    → NoVolume name volumes
    → (v.name == name) ≡ true
    → drop_volume name (volumes ++ (v ∷ [])) ≡ volumes
unfolding drop_volume
drop_volume-append name [] v h e = rw e
drop_volume-append name (u ∷ volumes) v (ne, h) e =
    rw ne (ap (λ (l : List Volume). u ∷ l) (drop_volume-append name volumes v h e))

drop_mount_absent :
    (name : String) (mounts : List VolumeMount)
    → NoMount name mounts
    → drop_mount name mounts ≡ mounts
unfolding drop_mount
drop_mount_absent name [] h = refl
drop_mount_absent name (m ∷ mounts) (ne, h) =
    rw ne (ap (λ (l : List VolumeMount). m ∷ l) (drop_mount_absent name mounts h))

drop_mount-append :
    (name : String) (mounts : List VolumeMount) (m : VolumeMount)
    → NoMount name mounts
    → (m.name == name) ≡ true
    → drop_mount name (mounts ++ (m ∷ [])) ≡ mounts
unfolding drop_mount
drop_mount-append name [] m h e = rw e
drop_mount-append name (u ∷ mounts) m (ne, h) e =
    rw ne (ap (λ (l : List VolumeMount). u ∷ l) (drop_mount-append name mounts m h e))

unmount_from_absent :
    (name : String) (containers : List Container)
    → NoMounts name containers
    → unmount_from name containers ≡ containers
unfolding unmount_from
unmount_from_absent name [] h = refl
unmount_from_absent name (c ∷ containers) (hc, h) = elim (Bool-cases (c.name == bosh_job)) [
  | inl job ↦
      rw (
        job,
        drop_mount_absent name c.volume_mounts (hc job),
        unmount_from_absent name containers h,
      )
  | inr other ↦ rw (other, unmount_from_absent name containers h)
]

unmount_from-mount_in :
    (name : String) (m : VolumeMount) (containers : List Container)
    → (m.name == name) ≡ true
    → NoMounts name containers
    → unmount_from name (mount_in m containers) ≡ containers
unfolding unmount_from mount_in
unmount_from-mount_in name m [] e h = refl
unmount_from-mount_in name m (c ∷ containers) e (hc, h) = elim (Bool-cases (c.name == bosh_job)) [
  | inl job ↦ rw job (
      rw (
        job,
        drop_mount-append name c.volume_mounts m (hc job) e,
        unmount_from_absent name containers h,
      ))
  | inr other ↦ rw other (rw (other, unmount_from-mount_in name m containers e h))
]

-- Removing a disk's volume right after it was added gives the spec back, if before that no volume of
-- the spec and no mount of the agent's containers had the disk's name.
pub remove-add_volume :
    (spec : PodSpec) (disk_id : String)
    → NoVolume (disk_name disk_id) spec.volumes
    → NoMounts (disk_name disk_id) spec.containers
    → remove_volume (add_volume spec disk_id) disk_id ≡ spec
unfolding remove_volume add_volume
remove-add_volume spec disk_id hv hm = rw (
  drop_volume-append _ spec.volumes (disk_volume disk_id) hv (eq_refl (disk_name disk_id)),
  unmount_from-mount_in _ (disk_mount disk_id) spec.containers (eq_refl (disk_name disk_id)) hm,
)
