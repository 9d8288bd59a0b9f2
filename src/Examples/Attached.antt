-- ===== src/Examples/Attached.antt =====
-- A disk is attached, listed, and detached again, with claims that the attachment leaves alone.
use kubernetes_cpi.Base.{
  String, ◌≡◌, refl, ap, Option, none, some, List, [], ◌∷◌, ◌++◌, Dict, lookup, insert, erase, ◌==◌,
  Bool-cases, inl, inr,
}
use kubernetes_cpi.Exec.{returns, Result, ok, and_then, ◌>>=◌}
use kubernetes_cpi.Cid.{split_n, new_disk_cid, parse_vmcid, parse_disk_cid}
use kubernetes_cpi.Kube.Objects.{Pod, PodSpec, PersistentVolumeClaim}
use kubernetes_cpi.Kube.World.{Client}
use kubernetes_cpi.Kube.Server.{Server}
use kubernetes_cpi.Kube.Memory.{Cluster, empty, get_by}
use kubernetes_cpi.Kube.Memory.Serves.{
  serves, spec_of, get_by-state, update_by-apart, create_by-apart, delete_by-apart, pods_of,
  put_pods, pod_name, configs_of, put_configs, config_name,
}
use kubernetes_cpi.Actions.Volumes.{disk_volume}
use kubernetes_cpi.Actions.VolumeManager.{attach_disk, detach_disk}
use kubernetes_cpi.Actions.VolumeManager.Views.{Apart}
use kubernetes_cpi.Actions.Vms.{get_disks}
use kubernetes_cpi.Actions.Attached.{Reads}
use kubernetes_cpi.Actions.Attached.Attach.{attach_disk-get_disks}
use kubernetes_cpi.Actions.Attached.Detach.{detach_disk-get_disks}
use kubernetes_cpi.Actions.Attached.RoundTrip.{attach-detach_disk}
use kubernetes_cpi.Examples.Fixtures.{
  pod_signals, claim_signals, at_rest, world, spec, client, claim, start, attached, manager,
}

abbrev pub claims_of : Cluster → Dict PersistentVolumeClaim
claims_of s = s.claims

abbrev pub put_claims : Cluster → Dict PersistentVolumeClaim → Cluster
put_claims s m = record s { claims = m }

abbrev pub claim_name : PersistentVolumeClaim → String
claim_name pvc = pvc.meta.name

abbrev claims_in : Cluster → Client → String → Result PersistentVolumeClaim
claims_in s c n =
    (get_by claims_of put_claims claim_name claim_signals (lookup n s.claims) n empty).0

apart : {c : Client} → Apart world claims_in c
apart = record {
  get_pod = λ n. record {
    at = λ s.
        ap claims_in (get_by-state pods_of put_pods pod_name pod_signals (lookup n s.pods) n s);
  };
  delete_pod = λ n g. record {
    at = λ s.
        delete_by-apart pods_of put_pods pod_name pod_signals claims_in (λ s m. refl)
          (lookup n s.pods) n s;
  };
  create_pod = λ p. record {
    at = λ s.
        create_by-apart pods_of put_pods pod_name pod_signals claims_in (λ s m. refl)
          (lookup p.meta.name s.pods) p s;
  };
  watch_pod = λ o t. record { at = λ s. refl };
  get_config = λ n. record {
    at = λ s.
        ap claims_in
          (get_by-state configs_of put_configs config_name [] (lookup n s.config_maps) n s);
  };
  update_config = λ m. record {
    at = λ s.
        update_by-apart configs_of put_configs config_name [] claims_in (λ s m. refl)
          (lookup m.meta.name s.config_maps) m s;
  };
}

get_by-answer :
    (found : Option PersistentVolumeClaim) (n : String) (s t : Cluster)
    → (get_by claims_of put_claims claim_name claim_signals found n s).0
      ≡ (get_by claims_of put_claims claim_name claim_signals found n t).0
get_by-answer none n s t = refl
get_by-answer (some pvc) n s t = elim (Bool-cases (pvc.meta.name == n)) [
  | inl same ↦ rw same refl
  | inr other ↦ rw other refl
]

stored_pod :
    (found : Option Pod) (n : String) (s : Cluster) {spec : PodSpec}
    → spec_of n found ≡ some spec
    → (p : Pod) × ((get_by pods_of put_pods pod_name pod_signals found n s).0 ≡ ok p)
stored_pod none n s h = cc
stored_pod (some p) n s h = elim (Bool-cases (p.meta.name == n)) [
  | inl same ↦ (p, rw same refl)
  | inr other ↦ cc (rw other at h)
]

abbrev K : Server world
K = serves pod_signals claim_signals []

reads : Reads world K
unfolding serves
reads = record {
  claims = claims_in;
  get_claim = λ c n s. get_by-answer (lookup n s.claims) n s empty;
  same_claims = λ c n. record {
    at = λ s.
        ap claims_in
          (get_by-state claims_of put_claims claim_name claim_signals (lookup n s.claims) n s);
  };
  ambient = at_rest claims_in (λ n s. refl);
  apart = λ c. apart;
  new_client = λ x s t. refl;
  get_stored = λ c n s h. stored_pod (lookup n s.pods) n s h;
}

vm_parsed : parse_vmcid "ctx:a" ≡ returns ("ctx", "a")
unfolding parse_vmcid split_n
vm_parsed = refl

disk_parsed : parse_disk_cid "ctx:d" ≡ returns ("ctx", "d")
unfolding parse_disk_cid split_n
disk_parsed = refl

abbrev attached_here : Cluster
attached_here = (attach_disk world manager "ctx:a" "ctx:d" start).1

abbrev detached_here : Cluster
detached_here = (detach_disk world manager "ctx:a" "ctx:d" attached).1

attach_disk-get_disks_example :
    (get_disks world "ctx:a" attached_here).0
    ≡ and_then (get_disks world "ctx:a" start).0 (λ disks. returns (disks ++ ("ctx:d" ∷ [])))
unfolding attach_disk ◌>>=◌ lookup insert erase split_n serves reads
attach_disk-get_disks_example =
    attach_disk-get_disks world K reads "ctx:a" vm_parsed manager "ctx:d" disk_parsed start
      attached_here {spec = spec []} {pvc = claim} refl refl refl refl refl refl

detach_disk-get_disks_example :
    (xs : List String) × (ys : List String) × ("ctx:d" ∷ [] ≡ xs ++ ("ctx:d" ∷ ys))
    × ((get_disks world "ctx:a" detached_here).0 ≡ returns (xs ++ ys))
unfolding detach_disk get_disks ◌>>=◌ lookup insert erase split_n serves new_disk_cid reads
detach_disk-get_disks_example =
    detach_disk-get_disks world K reads "ctx:a" vm_parsed manager "ctx:d" disk_parsed attached
      detached_here {spec = spec (disk_volume "d" ∷ [])} {pvc = claim} [] [] ("ctx:d" ∷ []) refl
      refl refl tt refl refl refl refl refl

attach-detach_disk_example :
    ((j : String)
      → K.specs (detach_disk world manager "ctx:a" "ctx:d" attached_here).1 client j
        ≡ K.specs start client j)
    × ((get_disks world "ctx:a" (detach_disk world manager "ctx:a" "ctx:d" attached_here).1).0
        ≡ (get_disks world "ctx:a" start).0)
unfolding attach_disk detach_disk get_disks ◌>>=◌ lookup insert erase split_n serves new_disk_cid
    reads
attach-detach_disk_example =
    attach-detach_disk world K reads "ctx:a" vm_parsed manager "ctx:d" disk_parsed start
      attached_here (detach_disk world manager "ctx:a" "ctx:d" attached_here).1 {spec = spec []}
      refl refl tt (λ h. tt, (λ h. tt, tt)) refl refl refl refl
