-- ===== src/Actions/Agreement/Counts.antt =====
-- The two lists under the changes of one disk.
use text.Mathlib.TextLemmas.{append_cancel_left}
use kubernetes_cpi.Base.{
  ◌+◌, ◌-◌, ◌≤◌, String, ◌<>◌, ◌≡◌, refl, sym, ap, ◌∙◌, Bool, true, false, Option, none, some, List,
  [], ◌∷◌, ◌++◌, lookup, lookup-insert, lookup-erase, dict_of, ◌==◌, eq_iff, Bool-cases, inl, inr,
  if◌then◌else◌, arith,
}
use kubernetes_cpi.Agent.{Settings}
use kubernetes_cpi.Cid.{new_disk_cid}
use kubernetes_cpi.Kube.Objects.{Volume}
use kubernetes_cpi.Actions.Names.{disk_name, mount_path_of}
use kubernetes_cpi.Actions.Volumes.{add, remove, disk_volume, drop_volume}
use kubernetes_cpi.Actions.VolumeManager.{update_disks}
use kubernetes_cpi.Actions.Agreement.{count_named, count_of}

same_truth : (x y : Bool) → (x ≡ true → y ≡ true) → (y ≡ true → x ≡ true) → x ≡ y
same_truth true y f g = sym (f refl)
same_truth false true f g = g refl
same_truth false false f g = refl

pub append-eq : (p a b : String) → (p <> a == p <> b) ≡ (a == b)
append-eq p a b =
    same_truth (p <> a == p <> b) (a == b)
      (λ h. (eq_iff a b).1 (append_cancel_left p a b ((eq_iff (p <> a) (p <> b)).0 h)))
      (λ h. (eq_iff (p <> a) (p <> b)).1 (ap (λ (x : String). p <> x) ((eq_iff a b).0 h)))

cid-eq : (context a b : String) → (new_disk_cid context a == new_disk_cid context b) ≡ (a == b)
unfolding new_disk_cid
cid-eq context a b = append-eq context (":" <> a) (":" <> b) ∙ append-eq ":" a b

count_named-append :
    (name : String) (volumes : List Volume) (v : Volume)
    → count_named name (volumes ++ (v ∷ []))
      ≡ count_named name volumes + (if v.name == name then 1 else 0)
count_named-append name [] v = ground arith
count_named-append name (u ∷ volumes) v = ground (arith, count_named-append name volumes v)

count_named-drop :
    (gone name : String) (volumes : List Volume)
    → count_named name (drop_volume gone volumes)
      ≡ (if gone == name then count_named name volumes - 1 else count_named name volumes)
unfolding drop_volume
count_named-drop gone name [] = ground arith
count_named-drop gone name (v ∷ volumes) = ground (
  arith,
  eq_iff gone name,
  eq_iff v.name gone,
  eq_iff v.name name,
  count_named-drop gone name volumes,
)

-- One more disk that was not listed.
pub attached-count :
    (context disk_id j : String) (volumes : List Volume) (settings : Settings)
    → lookup (new_disk_cid context disk_id) (dict_of settings.disks.persistent) ≡ none
    → count_named (disk_name j) volumes
      ≡ count_of (lookup (new_disk_cid context j) (dict_of settings.disks.persistent))
    → count_named (disk_name j) (volumes ++ (disk_volume disk_id ∷ []))
      ≡ count_of (
          lookup (new_disk_cid context j) (
            dict_of
              (update_disks add (new_disk_cid context disk_id) disk_id settings).disks.persistent))
unfolding update_disks
attached-count context disk_id j volumes settings fresh agree =
    let disks = dict_of settings.disks.persistent in
    let cid = new_disk_cid context disk_id in
    count_named-append (disk_name j) volumes (disk_volume disk_id)
    ∙ rw
        (
          append-eq "disk-" disk_id j,
          lookup-insert cid (new_disk_cid context j) (mount_path_of disk_id) disks,
          cid-eq context disk_id j,
        )
        (elim (Bool-cases (disk_id == j)) [
          | inl same ↦
              let none_there : count_of (lookup (new_disk_cid context j) disks) ≡ 0 =
                ap (λ (d : String). count_of (lookup (new_disk_cid context d) disks))
                  (sym ((eq_iff disk_id j).0 same))
                ∙ ap count_of fresh in
              rw same (omega (arith, agree, none_there))
          | inr other ↦ rw other (omega (arith, agree))
        ])

-- One disk less.
pub detached-count :
    (context disk_id j : String) (volumes : List Volume) (settings : Settings)
    → count_named (disk_name j) volumes
      ≡ count_of (lookup (new_disk_cid context j) (dict_of settings.disks.persistent))
    → count_named (disk_name j) (drop_volume (disk_name disk_id) volumes)
      ≡ count_of (
          lookup (new_disk_cid context j) (
            dict_of
              (update_disks remove
                (new_disk_cid context disk_id)
                disk_id
                settings).disks.persistent))
unfolding update_disks
detached-count context disk_id j volumes settings agree =
    let disks = dict_of settings.disks.persistent in
    count_named-drop (disk_name disk_id) (disk_name j) volumes
    ∙ rw
        (
          append-eq "disk-" disk_id j,
          lookup-erase (new_disk_cid context disk_id) (new_disk_cid context j) disks,
          cid-eq context disk_id j,
        )
        (elim (Bool-cases (disk_id == j)) [
          | inl same ↦
              rw same (omega (arith, agree, at_most_one (lookup (new_disk_cid context j) disks)))
          | inr other ↦ rw other agree
        ])
  where
    at_most_one : (o : Option String) → count_of o ≤ 1
    at_most_one none = omega arith
    at_most_one (some a) = omega arith
