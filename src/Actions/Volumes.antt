-- ===== src/Actions/Volumes.antt =====
-- actions/volume_manager.go: `addVolume`, `removeVolume` and `updateVolumes`, on a pod's spec.
pub mod Laws
pub mod Removal
use kubernetes_cpi.Base.{String, List, [], ◌∷◌, ◌++◌, ◌==◌, if◌then◌else◌}
use kubernetes_cpi.Kube.Objects.{Container, PodSpec, Volume, VolumeMount, persistent_volume_claim}
use kubernetes_cpi.Actions.Names.{bosh_job, disk_name, mount_path_of}

pub data Operation : Type 0 where
  add remove : Operation

abbrev pub disk_volume : String → Volume
disk_volume disk_id = record {
  name = disk_name disk_id;
  source = persistent_volume_claim (disk_name disk_id);
}

abbrev pub disk_mount : String → VolumeMount
disk_mount disk_id = record {
  name = disk_name disk_id;
  mount_path = mount_path_of disk_id;
  sub_path = "";
}

abbrev pub with_mounts : Container → List VolumeMount → Container
with_mounts c mounts = record c { volume_mounts = mounts }

-- The first container of the agent gets the mount, and the loop breaks.
unfoldable pub mount_in : VolumeMount → List Container → List Container
mount_in m [] = []
mount_in m (c ∷ containers) =
    if c.name == bosh_job
    then with_mounts c (c.volume_mounts ++ (m ∷ [])) ∷ containers
    else c ∷ mount_in m containers

unfoldable pub add_volume : PodSpec → String → PodSpec
unfolding mount_in
add_volume spec disk_id = record spec {
  volumes = spec.volumes ++ (disk_volume disk_id ∷ []);
  containers = mount_in (disk_mount disk_id) spec.containers;
}

-- append(volumes[:i], volumes[i+1:]...) at the first volume of the name
unfoldable pub drop_volume : String → List Volume → List Volume
drop_volume name [] = []
drop_volume name (v ∷ volumes) = if v.name == name then volumes else v ∷ drop_volume name volumes

-- the same for the mounts of one container
unfoldable pub drop_mount : String → List VolumeMount → List VolumeMount
drop_mount name [] = []
drop_mount name (m ∷ mounts) = if m.name == name then mounts else m ∷ drop_mount name mounts

-- Every container of the agent loses its mount: only the inner loop breaks.
unfoldable pub unmount_from : String → List Container → List Container
unfolding drop_mount
unmount_from name [] = []
unmount_from name (c ∷ containers) =
    (if c.name == bosh_job then with_mounts c (drop_mount name c.volume_mounts) else c)
    ∷ unmount_from name containers

unfoldable pub remove_volume : PodSpec → String → PodSpec
unfolding drop_volume unmount_from
remove_volume spec disk_id = record spec {
  volumes = drop_volume (disk_name disk_id) spec.volumes;
  containers = unmount_from (disk_name disk_id) spec.containers;
}

unfoldable pub update_volumes : Operation → PodSpec → String → PodSpec
unfolding add_volume remove_volume
update_volumes add spec disk_id = add_volume spec disk_id
update_volumes remove spec disk_id = remove_volume spec disk_id
