-- ===== src/Examples/Finding.antt =====
-- A disk is created and found.
use kubernetes_cpi.Base.{
  String, ◌≡◌, refl, sym, ap, ◌∙◌, true, false, Option, none, some, [], ◌∷◌, Dict, lookup, insert,
  ◌==◌, Bool-cases, inl, inr,
}
use kubernetes_cpi.Exec.{returns, ok}
use kubernetes_cpi.Text.{is_empty}
use kubernetes_cpi.Cid.{new_disk_cid}
use kubernetes_cpi.Cid.Laws.{has_colon}
use kubernetes_cpi.Kube.Objects.{PersistentVolumeClaim}
use kubernetes_cpi.Kube.World.{Client}
use kubernetes_cpi.Kube.Memory.{Cluster, values, create_by}
use kubernetes_cpi.Actions.Disks.{create_disk, has_disk}
use kubernetes_cpi.Actions.Disks.Found.{Lists, create_disk-has_disk}
use kubernetes_cpi.Examples.Fixtures.{claim_signals, world, start}
use kubernetes_cpi.Examples.Disks.{guid, properties, create_runs}
use kubernetes_cpi.Examples.Attached.{claims_of, put_claims, claim_name}

pub inserted_there :
    {V : Type 0} (k : String) (v : V) (m : Dict V) → is_empty (values (insert k v m)) ≡ false
unfolding insert
inserted_there k v [] = refl
inserted_there k v ((j, w) ∷ m) = elim (Bool-cases (j == k)) [
  | inl same ↦ rw same refl
  | inr other ↦ rw other refl
]

created_there :
    (found : Option PersistentVolumeClaim) (pvc q : PersistentVolumeClaim) (s : Cluster)
    → (create_by claims_of put_claims claim_name claim_signals found pvc s).0 ≡ ok q
    → is_empty
        (values (create_by claims_of put_claims claim_name claim_signals found pvc s).1.claims)
      ≡ false
created_there none pvc q s h = inserted_there pvc.meta.name pvc s.claims
created_there (some found) pvc q s h = cc

answered : {A : Type 0} {a b : A} → ok a ≡ ok b → a ≡ b
answered h = cc

lists : Lists world
lists = record {
  labelled = λ s c disk_id. values s.claims;
  list = λ c disk_id selector s h. refl;
  create = λ c pvc disk_id s q h label. created_there (lookup pvc.meta.name s.claims) pvc q s h;
  watch = λ c o t. record { at = λ s. refl };
  new_client_leaves = λ x. record { at = λ s. refl };
  new_client =
      λ x c s t h. ap (λ (c' : Client). (world.new_client c'.context s).0) (sym (answered h)) ∙ h;
}

no_colon : (c : Client) → (world.new_client "ctx" start).0 ≡ ok c → has_colon c.context ≡ false
no_colon c h = ap (λ (c' : Client). has_colon c'.context) (sym (answered h))

create_disk-has_disk_example :
    (has_disk world
      (new_disk_cid "ctx" "f")
      (create_disk world guid 30 2 properties "ctx:a" start).1).0
    ≡ returns true
create_disk-has_disk_example =
    create_disk-has_disk world lists guid 30 2 properties "ctx:a" (new_disk_cid "ctx" "f") start
      (create_disk world guid 30 2 properties "ctx:a" start).1 no_colon create_runs refl
