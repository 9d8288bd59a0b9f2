-- ===== src/Examples/Attach.antt =====
-- Attaching a disk and detaching one.
use kubernetes_cpi.Base.{◌≡◌, refl, ◌↔◌, [], lookup, insert, erase}
use kubernetes_cpi.Exec.{foreign, returns, ◌>>=◌}
use kubernetes_cpi.Exec.Returns.{Runs}
use kubernetes_cpi.Exec.Safe.{NoPanic}
use kubernetes_cpi.Cid.{split_n}
use kubernetes_cpi.Kube.Memory.{Cluster}
use kubernetes_cpi.Kube.Memory.Serves.{serves}
use kubernetes_cpi.Actions.Volumes.{add, remove}
use kubernetes_cpi.Actions.VolumeManager.{attach_disk, detach_disk}
use kubernetes_cpi.Actions.VolumeManager.Attach.{
  DiskChanged, attach_disk-effect, detach_disk-effect,
}
use kubernetes_cpi.Actions.VolumeManager.Progress.{Proceeds, attach_detach_disk_iff}
use kubernetes_cpi.Actions.VolumeManager.Safety.{change_disk-NoPanic}
use kubernetes_cpi.Examples.Fixtures.{pod_signals, claim_signals, world, start, attached, manager}

attach_runs : (attach_disk world manager "ctx:a" "ctx:d" start).0 ≡ returns tt
unfolding attach_disk ◌>>=◌ lookup insert erase split_n
attach_runs = refl

detach_runs : (detach_disk world manager "ctx:a" "ctx:d" attached).0 ≡ returns tt
unfolding detach_disk ◌>>=◌ lookup insert erase split_n
detach_runs = refl

attach_disk-effect_example :
    DiskChanged world
      (serves pod_signals claim_signals [])
      manager
      "ctx:a"
      "ctx:d"
      add
      start
      (attach_disk world manager "ctx:a" "ctx:d" start).1
attach_disk-effect_example =
    attach_disk-effect world (serves pod_signals claim_signals []) manager "ctx:a" "ctx:d" start
      (attach_disk world manager "ctx:a" "ctx:d" start).1 attach_runs refl

detach_disk-effect_example :
    DiskChanged world
      (serves pod_signals claim_signals [])
      manager
      "ctx:a"
      "ctx:d"
      remove
      attached
      (detach_disk world manager "ctx:a" "ctx:d" attached).1
detach_disk-effect_example =
    detach_disk-effect world (serves pod_signals claim_signals []) manager "ctx:a" "ctx:d" attached
      (detach_disk world manager "ctx:a" "ctx:d" attached).1 detach_runs refl

change_disk-NoPanic_example :
    NoPanic (attach_disk world manager "ctx:a" "ctx:d" start).0
    × NoPanic (detach_disk world manager "ctx:a" "ctx:d" start).0
change_disk-NoPanic_example =
    change_disk-NoPanic world {e = foreign "unexpected end of JSON input"} refl manager "ctx:a"
      "ctx:d" start refl refl

abbrev attached_here : Cluster
attached_here = (attach_disk world manager "ctx:a" "ctx:d" start).1

attach_detach_disk_iff_example :
    (Runs (attach_disk world manager "ctx:a" "ctx:d") start tt attached_here
      ↔ Proceeds world manager "ctx:a" "ctx:d" add start attached_here)
    × (Runs (detach_disk world manager "ctx:a" "ctx:d") start tt attached_here
        ↔ Proceeds world manager "ctx:a" "ctx:d" remove start attached_here)
attach_detach_disk_iff_example =
    attach_detach_disk_iff world manager "ctx:a" "ctx:d" start attached_here
