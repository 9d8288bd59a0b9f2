-- ===== src/Examples/Erasing.antt =====
-- A disk is deleted, and is gone.
use kubernetes_cpi.Base.{
  String, ◌≡◌, refl, sym, ap, ◌∙◌, false, Option, none, some, List, [], ◌∷◌, Dict, lookup, insert,
  erase, ◌==◌, eq_refl, eq_iff, if◌then◌else◌, Bool-cases, inl, inr,
}
use kubernetes_cpi.Exec.{returns, ok, ◌>>=◌}
use kubernetes_cpi.Text.{is_empty}
use kubernetes_cpi.Cid.{split_n, parse_disk_cid}
use kubernetes_cpi.Kube.Objects.{PersistentVolumeClaim}
use kubernetes_cpi.Kube.World.{World, Client}
use kubernetes_cpi.Kube.Memory.{Cluster, create_by, delete_by}
use kubernetes_cpi.Actions.Disks.{delete_disk, has_disk}
use kubernetes_cpi.Actions.Disks.Found.{Lists}
use kubernetes_cpi.Actions.Disks.Gone.{others, Deletes, delete_disk-has_disk}
use kubernetes_cpi.Examples.Fixtures.{claim_signals, world, client, start}
use kubernetes_cpi.Examples.Attached.{claims_of, put_claims, claim_name}

-- The claims that are stored under their names.
abbrev by_names : Dict PersistentVolumeClaim → List PersistentVolumeClaim
by_names [] = []
by_names ((k, pvc) ∷ m) = let rest = by_names m in if pvc.meta.name == k then pvc ∷ rest else rest

-- The cluster in memory, which lists those.
abbrev listing : World
listing = record world {
  claims = record (world.claims) { list = λ c selector s. (ok (by_names s.claims), s) };
}

by_names-insert :
    (pvc : PersistentVolumeClaim) (m : Dict PersistentVolumeClaim)
    → is_empty (by_names (insert pvc.meta.name pvc m)) ≡ false
unfolding insert
by_names-insert pvc [] = rw (eq_refl pvc.meta.name) refl
by_names-insert pvc ((k, v) ∷ m) = elim (Bool-cases (k == pvc.meta.name)) [
  | inl same ↦ rw (same, eq_refl pvc.meta.name) refl
  | inr other ↦ rw other (elim (Bool-cases (v.meta.name == k)) [
    | inl here ↦ rw here refl
    | inr there ↦ rw there (by_names-insert pvc m)
  ])
]

created_there :
    (found : Option PersistentVolumeClaim) (pvc q : PersistentVolumeClaim) (s : Cluster)
    → (create_by claims_of put_claims claim_name claim_signals found pvc s).0 ≡ ok q
    → is_empty
        (by_names (create_by claims_of put_claims claim_name claim_signals found pvc s).1.claims)
      ≡ false
created_there none pvc q s h = by_names-insert pvc s.claims
created_there (some found) pvc q s h = cc

by_names-erase :
    (name : String) (m : Dict PersistentVolumeClaim)
    → by_names (erase name m) ≡ others name (by_names m)
unfolding erase
by_names-erase name [] = refl
by_names-erase name ((k, v) ∷ m) = elim (Bool-cases (v.meta.name == k)) [
  | inl here ↦
      let same : v.meta.name ≡ k = (eq_iff v.meta.name k).0 here in
      elim (Bool-cases (k == name)) [
        | inl gone ↦ rw (gone, here) (rw (ap (λ n. n == name) same ∙ gone) (by_names-erase name m))
        | inr kept ↦
            rw (kept, here)
              (rw (ap (λ n. n == name) same ∙ kept)
                (ap (λ (l : List PersistentVolumeClaim). v ∷ l) (by_names-erase name m)))
      ]
  | inr there ↦ elim (Bool-cases (k == name)) [
    | inl gone ↦ rw (gone, there) (by_names-erase name m)
    | inr kept ↦ rw (kept, there) (by_names-erase name m)
  ]
]

answered : {A : Type 0} {a b : A} → ok a ≡ ok b → a ≡ b
answered h = cc

lists : Lists listing
lists = record {
  labelled = λ s c disk_id. by_names s.claims;
  list = λ c disk_id selector s h. refl;
  create = λ c pvc disk_id s q h label. created_there (lookup pvc.meta.name s.claims) pvc q s h;
  watch = λ c o t. record { at = λ s. refl };
  new_client_leaves = λ x. record { at = λ s. refl };
  new_client =
      λ x c s t h. ap (λ (c' : Client). (listing.new_client c'.context s).0) (sym (answered h)) ∙ h;
}

deleted_by :
    (found : Option PersistentVolumeClaim) (name : String) (s : Cluster)
    → (delete_by claims_of put_claims claim_name claim_signals found name s).0 ≡ ok tt
    → by_names (delete_by claims_of put_claims claim_name claim_signals found name s).1.claims
      ≡ others name (by_names s.claims)
deleted_by none name s h = cc
deleted_by (some found) name s h = by_names-erase name s.claims

deletes : Deletes listing lists
unfolding lists
deletes = record { delete = λ c name disk_id g s h. deleted_by (lookup name s.claims) name s h }

parsed : parse_disk_cid "ctx:d" ≡ returns ("ctx", "d")
unfolding parse_disk_cid split_n
parsed = refl

abbrev gone : Cluster
gone = (delete_disk listing "ctx:d" start).1

delete_disk-has_disk_example : (has_disk listing "ctx:d" gone).0 ≡ returns false
unfolding lists delete_disk ◌>>=◌ lookup erase split_n
delete_disk-has_disk_example =
    delete_disk-has_disk listing lists deletes "ctx:d" start gone {client = client} parsed refl refl
      refl (refl, tt) refl refl
