-- ===== src/Actions/Volumes/Removal.antt =====
-- Where a disk's mount goes, and what a removal leaves.
use kubernetes_cpi.Base.{
  String, ◌≡◌, refl, sym, ap, inl, inr, true, false, List, [], ◌∷◌, ◌++◌, map, ◌==◌, if◌then◌else◌,
  Bool-cases,
}
use kubernetes_cpi.Kube.Objects.{Container, PodSpec, Volume, VolumeMount}
use kubernetes_cpi.Actions.Names.{bosh_job, disk_name}
use kubernetes_cpi.Actions.Volumes.{
  disk_volume, disk_mount, with_mounts, mount_in, add_volume, drop_volume, drop_mount, unmount_from,
  remove_volume,
}
use kubernetes_cpi.Actions.Volumes.Laws.{NoVolume, NoMount}

-- All volumes of other names, in order.
abbrev pub other_volumes : String → List Volume → List Volume
other_volumes name [] = []
other_volumes name (v ∷ volumes) =
    let rest = other_volumes name volumes in if v.name == name then rest else v ∷ rest

abbrev pub other_mounts : String → List VolumeMount → List VolumeMount
other_mounts name [] = []
other_mounts name (m ∷ mounts) =
    let rest = other_mounts name mounts in if m.name == name then rest else m ∷ rest

-- At most one volume of the list has the name.
abbrev pub OneVolume : String → List Volume → Type 0
OneVolume name [] = Unit {0}
OneVolume name (v ∷ volumes) =
    ((v.name == name) ≡ true → NoVolume name volumes) × OneVolume name volumes

abbrev pub OneMount : String → List VolumeMount → Type 0
OneMount name [] = Unit {0}
OneMount name (m ∷ mounts) = ((m.name == name) ≡ true → NoMount name mounts) × OneMount name mounts

abbrev pub OneMountEach : String → List Container → Type 0
OneMountEach name [] = Unit {0}
OneMountEach name (c ∷ containers) = OneMount name c.volume_mounts × OneMountEach name containers

-- A container of the agent without its mounts of the name; any other container as it is.
abbrev pub stripped : String → Container → Container
stripped name c =
    if c.name == bosh_job then with_mounts c (other_mounts name c.volume_mounts) else c

other_volumes_absent :
    (name : String) (volumes : List Volume)
    → NoVolume name volumes
    → other_volumes name volumes ≡ volumes
other_volumes_absent name [] h = refl
other_volumes_absent name (v ∷ volumes) (ne, h) =
    rw ne (ap (λ (l : List Volume). v ∷ l) (other_volumes_absent name volumes h))

other_mounts_absent :
    (name : String) (mounts : List VolumeMount)
    → NoMount name mounts
    → other_mounts name mounts ≡ mounts
other_mounts_absent name [] h = refl
other_mounts_absent name (m ∷ mounts) (ne, h) =
    rw ne (ap (λ (l : List VolumeMount). m ∷ l) (other_mounts_absent name mounts h))

drop_volume-eq :
    (name : String) (volumes : List Volume)
    → OneVolume name volumes
    → drop_volume name volumes ≡ other_volumes name volumes
unfolding drop_volume
drop_volume-eq name [] h = refl
drop_volume-eq name (v ∷ volumes) (first, h) = elim (Bool-cases (v.name == name)) [
  | inl same ↦ rw same (sym (other_volumes_absent name volumes (first same)))
  | inr other ↦ rw other (ap (λ (l : List Volume). v ∷ l) (drop_volume-eq name volumes h))
]

drop_mount-eq :
    (name : String) (mounts : List VolumeMount)
    → OneMount name mounts
    → drop_mount name mounts ≡ other_mounts name mounts
unfolding drop_mount
drop_mount-eq name [] h = refl
drop_mount-eq name (m ∷ mounts) (first, h) = elim (Bool-cases (m.name == name)) [
  | inl same ↦ rw same (sym (other_mounts_absent name mounts (first same)))
  | inr other ↦ rw other (ap (λ (l : List VolumeMount). m ∷ l) (drop_mount-eq name mounts h))
]

unmount_from-eq :
    (name : String) (containers : List Container)
    → OneMountEach name containers
    → unmount_from name containers ≡ map (stripped name) containers
unfolding unmount_from
unmount_from-eq name [] h = refl
unmount_from-eq name (c ∷ containers) (hc, h) =
    rw (drop_mount-eq name c.volume_mounts hc, unmount_from-eq name containers h)

-- If the names of the spec's volumes and of each container's mounts are the disk's at most once, a
-- removal leaves all volumes of other names, the agent's containers with all their mounts of other
-- names, and the other containers untouched.
pub remove_volume-eq :
    (spec : PodSpec) (disk_id : String)
    → OneVolume (disk_name disk_id) spec.volumes
    → OneMountEach (disk_name disk_id) spec.containers
    → remove_volume spec disk_id ≡ record spec {
      volumes = other_volumes (disk_name disk_id) spec.volumes;
      containers = map (stripped (disk_name disk_id)) spec.containers;
    }
unfolding remove_volume
remove_volume-eq spec disk_id hv hm =
    rw (drop_volume-eq _ spec.volumes hv, unmount_from-eq _ spec.containers hm)

abbrev pub NoJob : List Container → Type 0
NoJob [] = Unit {0}
NoJob (c ∷ containers) = ((c.name == bosh_job) ≡ false) × NoJob containers

mount_in-first :
    (m : VolumeMount) (before after : List Container) (c : Container)
    → NoJob before
    → (c.name == bosh_job) ≡ true
    → mount_in m (before ++ (c ∷ after))
      ≡ before ++ (with_mounts c (c.volume_mounts ++ (m ∷ [])) ∷ after)
unfolding mount_in
mount_in-first m [] after c h job = rw job
mount_in-first m (b ∷ before) after c (hb, h) job =
    rw hb (ap (λ (l : List Container). b ∷ l) (mount_in-first m before after c h job))

-- An added disk is the last volume, and is mounted last in the first container of the agent. Nothing
-- else of the spec changes.
pub add_volume-first :
    (spec : PodSpec) (disk_id : String) (before after : List Container) (c : Container)
    → spec.containers ≡ before ++ (c ∷ after)
    → NoJob before
    → (c.name == bosh_job) ≡ true
    → add_volume spec disk_id ≡ record spec {
      volumes = spec.volumes ++ (disk_volume disk_id ∷ []);
      containers = before ++ (with_mounts c (c.volume_mounts ++ (disk_mount disk_id ∷ [])) ∷ after);
    }
unfolding add_volume
add_volume-first spec disk_id before after c split h job =
    rw (split, mount_in-first (disk_mount disk_id) before after c h job)
