-- ===== src/Examples/Disks.antt =====
-- Creating a disk, and the labels of disks and VMs.
use kubernetes_cpi.Base.{String, ◌≡◌, ◌↔◌, refl, none, [], ◌∷◌, Dict, lookup, insert, if◌then◌else◌}
use kubernetes_cpi.Exec.{returns, panics, ok, Call, ◌>>=◌}
use kubernetes_cpi.Text.{replace_colons, to_lower}
use kubernetes_cpi.Cid.{split_n, new_disk_cid}
use kubernetes_cpi.Kube.Memory.{Cluster}
use kubernetes_cpi.Actions.Disks.{
  CreateDiskCloudProperties, create_disk, set_disk_labels, set_disk_metadata, label_value,
}
use kubernetes_cpi.Actions.Disks.Create.{DiskCreated, create_disk_iff}
use kubernetes_cpi.Actions.Disks.Progress.{Relabelled, set_disk_metadata_iff}
use kubernetes_cpi.Actions.Vms.Metadata.{Patched, set_vm_metadata_iff}
use kubernetes_cpi.Exec.Returns.{Runs}
use kubernetes_cpi.Kube.World.{World}
use kubernetes_cpi.Actions.Vms.{set_vm_labels, set_vm_metadata}
use kubernetes_cpi.Actions.Vms.Labels.{has_label, set_vm_labels-none}
use kubernetes_cpi.Examples.Fixtures.{world, start, pod}

abbrev pub guid : Call Cluster String
guid s = (ok "f", s)

abbrev pub properties : CreateDiskCloudProperties
properties = record { context = "ctx"; storage_class = "fast"; storage_provisioner = "p" }

pub create_runs :
    (create_disk world guid 30 2 properties "ctx:a" start).0 ≡ returns (new_disk_cid "ctx" "f")
unfolding create_disk ◌>>=◌ lookup insert
create_runs = refl

create_disk_iff_example :
    ((create_disk world guid 30 2 properties "ctx:a" start).0 ≡ returns (new_disk_cid "ctx" "f"))
    ↔ DiskCreated world guid 30 2 properties start (new_disk_cid "ctx" "f")
create_disk_iff_example =
    create_disk_iff world guid 30 2 properties "ctx:a" start (new_disk_cid "ctx" "f")

abbrev metadata : Dict String
metadata = ("job", "api") ∷ ("attached_at", "10:30") ∷ ("job", "db") ∷ []

abbrev labelled : Dict String
labelled =
    ("team", "core")
    ∷ ("bosh.cloudfoundry.org/job", "db")
    ∷ ("bosh.cloudfoundry.org/attached_at", "10_30")
    ∷ []

accepted : set_disk_labels world metadata (("team", "core") ∷ []) ≡ returns labelled
unfolding set_disk_labels label_value insert replace_colons
accepted = refl

-- The cluster with the claim relabelled.
abbrev named : Cluster
named = (set_disk_metadata world "ctx:d" metadata start).1

named_there : (set_disk_metadata world "ctx:d" metadata start).0 ≡ returns tt
unfolding set_disk_metadata set_disk_labels label_value insert replace_colons lookup split_n ◌>>=◌
named_there = refl

set_disk_metadata_iff_example :
    Runs (set_disk_metadata world "ctx:d" metadata) start tt named
    ↔ Relabelled world "ctx:d" metadata start named
set_disk_metadata_iff_example = set_disk_metadata_iff world "ctx:d" metadata start named

-- A cluster that takes every patch of a pod.
abbrev patching : World
patching = record world { patch_pod = λ c name patch s. (ok pod, s) }

patched_there : (set_vm_metadata patching "ctx:a" metadata start).0 ≡ returns tt
unfolding set_vm_metadata set_vm_labels insert lookup split_n ◌>>=◌ to_lower
patched_there = refl

set_vm_metadata_iff_example :
    Runs (set_vm_metadata patching "ctx:a" metadata) start tt start
    ↔ Patched patching "ctx:a" metadata start start
set_vm_metadata_iff_example = set_vm_metadata_iff patching "ctx:a" metadata start start

set_vm_labels-none_example : set_vm_labels world (("job", "db") ∷ []) none ≡ (
    if has_label world (("job", "db") ∷ [])
    then panics "assignment to entry in nil map"
    else returns none)
set_vm_labels-none_example = set_vm_labels-none world (("job", "db") ∷ [])
