-- ===== src/Examples/Failures.antt =====
-- A disk is attached to a pod that never runs, and the wait for it ends with a timeout.
use kubernetes_cpi.Base.{
  String, ◌≡◌, refl, ap, sym, Option, none, some, List, [], ◌∷◌, Dict, lookup, insert, erase,
}
use kubernetes_cpi.Exec.{Error, fails, ◌>>=◌}
use kubernetes_cpi.Exec.Fails.{Refused}
use kubernetes_cpi.Cid.{split_n}
use kubernetes_cpi.Kube.Objects.{Pod}
use kubernetes_cpi.Kube.Watch.{Signal, timer}
use kubernetes_cpi.Kube.World.{World}
use kubernetes_cpi.Kube.Server.{Server}
use kubernetes_cpi.Kube.Memory.{Cluster, memory, update_by, create_by, delete_by}
use kubernetes_cpi.Kube.Memory.Serves.{
  serves, pods_of, put_pods, pod_name, configs_of, put_configs, config_name,
}
use kubernetes_cpi.Actions.Volumes.{add}
use kubernetes_cpi.Actions.VolumeManager.{attach_disk, detach_disk}
use kubernetes_cpi.Actions.VolumeManager.Failure.{Refusals, Left, attach_disk-failure}
use kubernetes_cpi.Examples.Fixtures.{claim_signals, start, attached, manager}

abbrev stuck : List (Signal Pod)
stuck = timer ∷ []

abbrev stuck_world : World
stuck_world = memory stuck claim_signals []

module _ {Obj : Type 0} (objects : Cluster → Dict Obj) (put : Cluster → Dict Obj → Cluster)
    (name_of : Obj → String) (signals : List (Signal Obj)) where
  create_by-Refused :
      (found : Option Obj) (o : Obj) (s t : Cluster)
      → Refused (create_by objects put name_of signals found o) s t
      → t ≡ s
  create_by-Refused none o s t (e, h, i) = cc
  create_by-Refused (some found) o s t (e, h, i) = sym i

  update_by-Refused :
      (found : Option Obj) (o : Obj) (s t : Cluster)
      → Refused (update_by objects put name_of signals found o) s t
      → t ≡ s
  update_by-Refused none o s t (e, h, i) = sym i
  update_by-Refused (some found) o s t (e, h, i) = cc

  delete_by-Refused :
      (found : Option Obj) (name : String) (s t : Cluster)
      → Refused (delete_by objects put name_of signals found name) s t
      → t ≡ s
  delete_by-Refused none name s t (e, h, i) = sym i
  delete_by-Refused (some found) name s t (e, h, i) = cc

abbrev K : Server stuck_world
K = serves stuck claim_signals []

refusals : Refusals stuck_world K
refusals = record {
  update_config = λ c m s t r. ap K.configs (
      update_by-Refused configs_of put_configs config_name [] (lookup m.meta.name s.config_maps) m s
        t r);
  delete_pod = λ c n g s t r.
      ap K.specs (delete_by-Refused pods_of put_pods pod_name stuck (lookup n s.pods) n s t r);
  create_pod = λ c p s t r.
      ap K.specs
        (create_by-Refused pods_of put_pods pod_name stuck (lookup p.meta.name s.pods) p s t r);
}

attach_times_out :
    (e : Error) × ((attach_disk stuck_world manager "ctx:a" "ctx:d" start).0 ≡ fails e)
unfolding attach_disk ◌>>=◌ lookup insert erase split_n
attach_times_out = (_, refl)

detach_times_out :
    (e : Error) × ((detach_disk stuck_world manager "ctx:a" "ctx:d" attached).0 ≡ fails e)
unfolding detach_disk ◌>>=◌ lookup insert erase split_n
detach_times_out = (_, refl)

attach_disk-failure_example :
    Left stuck_world K refusals add "ctx:a" "ctx:d" start
      (attach_disk stuck_world manager "ctx:a" "ctx:d" start).1
attach_disk-failure_example =
    attach_disk-failure stuck_world K refusals manager "ctx:a" "ctx:d" start
      (attach_disk stuck_world manager "ctx:a" "ctx:d" start).1 (attach_times_out.0)
      (attach_times_out.1) refl
