-- ===== src/Actions/VolumeManager/Reference.antt =====
-- What becomes of the pod and of the settings when a disk is attached or detached, by operations on
-- lists and records.
use kubernetes_cpi.Base.{
  String, ◌<>◌, ◌≡◌, refl, Bool, some, List, [], ◌∷◌, ◌++◌, map, insert, erase, dict_of, ◌==◌,
  if◌then◌else◌,
}
use kubernetes_cpi.Agent
use kubernetes_cpi.Kube.Objects.{
  Container, Pod, PodSpec, Volume, VolumeMount, persistent_volume_claim,
}
use kubernetes_cpi.Actions.Names.{bosh_job, ip_address}
use kubernetes_cpi.Actions.Volumes.{
  Operation, add, remove, mount_in, add_volume, drop_volume, drop_mount, unmount_from,
  remove_volume, update_volumes,
}
use kubernetes_cpi.Actions.VolumeManager.{text_at, keep_address, rebuild, update_disks}

-- The first element that passes the test is replaced by the elements that stand for it.
abbrev pub change_first {ℓ} : {A : Type ℓ} → (A → Bool) → (A → List A) → List A → List A
change_first test change [] = []
change_first test change (x ∷ xs) =
    if test x then change x ++ xs else x ∷ change_first test change xs

-- A volume for the disk comes last, and the first container of the agent gets its mount, last.
abbrev pub with_disk : String → PodSpec → PodSpec
with_disk disk_id spec = record spec {
  volumes =
      spec.volumes
      ++ (record {
        name = "disk-" <> disk_id;
        source = persistent_volume_claim ("disk-" <> disk_id);
      }
          ∷ []);
  containers =
      change_first (λ c. c.name == bosh_job)
        (λ c.
          record c {
            volume_mounts =
                c.volume_mounts
                ++ (record {
                  name = "disk-" <> disk_id;
                  mount_path = "/mnt/" <> disk_id;
                  sub_path = "";
                }
                    ∷ []);
          }
          ∷ [])
        spec.containers;
}

-- The first volume with the disk's name goes, and the first mount with it in each container of the
-- agent.
abbrev pub without_disk : String → PodSpec → PodSpec
without_disk disk_id spec = record spec {
  volumes = change_first (λ v. v.name == "disk-" <> disk_id) (λ v. []) spec.volumes;
  containers =
      map
        (λ c.
          if c.name == bosh_job
          then record c {
            volume_mounts =
                change_first (λ m. m.name == "disk-" <> disk_id) (λ m. []) c.volume_mounts;
          }
          else c)
        spec.containers;
}

abbrev pub changed_spec : Operation → String → PodSpec → PodSpec
changed_spec add disk_id spec = with_disk disk_id spec
changed_spec remove disk_id spec = without_disk disk_id spec

-- The pod with the changed spec, no status and no version; the name, the namespace, the labels and
-- the annotations stay, and the address is noted unless one is noted that is not empty.
abbrev pub changed_pod : Operation → String → Pod → Pod
changed_pod op disk_id pod = record {
  meta = record {
    name = pod.meta.name;
    namespace = pod.meta.namespace;
    annotations = some (
        if text_at ip_address pod.meta.annotations == ""
        then insert ip_address pod.status.pod_ip (dict_of pod.meta.annotations)
        else dict_of pod.meta.annotations);
    labels = pod.meta.labels;
    resource_version = "";
    generation = 0;
    rest = "";
  };
  spec = changed_spec op disk_id pod.spec;
  status = record { phase = ""; pod_ip = ""; container_statuses = []; rest = "" };
}

-- The settings list the disk at the path of its mount, or do not list it.
abbrev pub changed_settings : Operation → String → String → Agent.Settings → Agent.Settings
changed_settings add disk_cid disk_id settings = record settings {
  disks = record {
    persistent = some (insert disk_cid ("/mnt/" <> disk_id) (dict_of settings.disks.persistent));
  };
}
changed_settings remove disk_cid disk_id settings = record settings {
  disks = record { persistent = some (erase disk_cid (dict_of settings.disks.persistent)) };
}

drop_volume_lem :
    (name : String) (volumes : List Volume)
    → drop_volume name volumes ≡ change_first (λ v. v.name == name) (λ v. []) volumes
unfolding drop_volume
drop_volume_lem name [] = refl
drop_volume_lem name (v ∷ volumes) = rw (drop_volume_lem name volumes) refl

drop_mount_lem :
    (name : String) (mounts : List VolumeMount)
    → drop_mount name mounts ≡ change_first (λ m. m.name == name) (λ m. []) mounts
unfolding drop_mount
drop_mount_lem name [] = refl
drop_mount_lem name (m ∷ mounts) = rw (drop_mount_lem name mounts) refl

mount_in_lem :
    (m : VolumeMount) (containers : List Container)
    → mount_in m containers
      ≡ change_first
          (λ c. c.name == bosh_job)
          (λ c. record c { volume_mounts = c.volume_mounts ++ (m ∷ []) } ∷ [])
          containers
unfolding mount_in
mount_in_lem m [] = refl
mount_in_lem m (c ∷ containers) = rw (mount_in_lem m containers) refl

unmount_from_lem :
    (name : String) (containers : List Container)
    → unmount_from name containers
      ≡ map
          (λ c.
            if c.name == bosh_job
            then record c {
              volume_mounts = change_first (λ m. m.name == name) (λ m. []) c.volume_mounts;
            }
            else c)
          containers
unfolding unmount_from
unmount_from_lem name [] = refl
unmount_from_lem name (c ∷ containers) =
    rw (unmount_from_lem name containers, drop_mount_lem name c.volume_mounts) refl

update_volumes_lem :
    (op : Operation) (disk_id : String) (spec : PodSpec)
    → update_volumes op spec disk_id ≡ changed_spec op disk_id spec
unfolding update_volumes add_volume remove_volume
update_volumes_lem add disk_id spec = rw (mount_in_lem _ spec.containers) refl
update_volumes_lem remove disk_id spec =
    rw (drop_volume_lem _ spec.volumes, unmount_from_lem _ spec.containers) refl

pub rebuild-changed_pod :
    (op : Operation) (disk_id : String) (pod : Pod)
    → rebuild op disk_id pod ≡ changed_pod op disk_id pod
unfolding rebuild keep_address
rebuild-changed_pod op disk_id pod = rw (update_volumes_lem op disk_id pod.spec) refl

pub update_disks-changed_settings :
    (op : Operation) (disk_cid disk_id : String) (settings : Agent.Settings)
    → update_disks op disk_cid disk_id settings ≡ changed_settings op disk_cid disk_id settings
unfolding update_disks
update_disks-changed_settings add disk_cid disk_id settings = refl
update_disks-changed_settings remove disk_cid disk_id settings = refl
