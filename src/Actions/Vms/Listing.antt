-- ===== src/Actions/Vms/Listing.antt =====
-- `GetDisks` as a function of the pod's volumes and of what the server answers for their claims.
use kubernetes_cpi.Base.{
  String, ◌≡◌, refl, sym, ap, ◌∙◌, Option, none, some, List, [], ◌∷◌, ◌++◌, lookup, dict_of,
}
use mathlib.Core.List.{append_assoc}
use kubernetes_cpi.Exec.{Outcome, returns, fails, panics, waits, Result, ok, pure, and_then}
use kubernetes_cpi.Exec.Values.{bind-value}
use kubernetes_cpi.Exec.Keeps.{Leaves}
use kubernetes_cpi.Cid.{new_disk_cid}
use kubernetes_cpi.Kube.Objects.{
  PersistentVolumeClaim, Volume, VolumeSource, persistent_volume_claim,
}
use kubernetes_cpi.Kube.World.{World, Client}
use kubernetes_cpi.Actions.Names.{disk_id_label, disk_name}
use kubernetes_cpi.Actions.Volumes.{disk_volume}
use kubernetes_cpi.Actions.Vms.{disk_cids_of, collect_disks, get_pv_claim, found_claim, claimed}

-- The claim that a volume names, if it names one.
abbrev pub claim_of :
    (String → Result PersistentVolumeClaim) → VolumeSource → Result (Option PersistentVolumeClaim)
claim_of claim (persistent_volume_claim name) = claimed (claim name)
claim_of claim _ = ok none

module _ (claim : String → Result PersistentVolumeClaim) (context : String) where
  -- The ids of the disks whose claims the volumes name, in order, or the first error that is not
  -- "not found".
  unfoldable pub listed : List Volume → Outcome (List String)
  listed [] = returns []
  listed (v ∷ volumes) =
      let more = listed volumes in
      and_then (found_claim (claim_of claim v.source))
        λ o. and_then more λ rest. returns (disk_cids_of context o ++ rest)

  abbrev pub joined : Outcome (List String) → Outcome (List String) → Outcome (List String)
  joined xs ys = and_then xs λ a. and_then ys λ b. returns (a ++ b)

  join-cons :
      (o : Outcome (Option PersistentVolumeClaim)) (xs ys : Outcome (List String))
      → and_then o (λ c. and_then (joined xs ys) λ rest. returns (disk_cids_of context c ++ rest))
        ≡ joined (and_then o (λ c. and_then xs λ rest. returns (disk_cids_of context c ++ rest))) ys
  join-cons (returns c) (returns xs) (returns ys) =
      ap (λ (l : List String). returns l) (sym (append_assoc (disk_cids_of context c) xs ys))
  join-cons (returns c) (returns xs) (fails e) = refl
  join-cons (returns c) (returns xs) (panics p) = refl
  join-cons (returns c) (returns xs) waits = refl
  join-cons (returns c) (fails e) ys = refl
  join-cons (returns c) (panics p) ys = refl
  join-cons (returns c) waits ys = refl
  join-cons (fails e) xs ys = refl
  join-cons (panics p) xs ys = refl
  join-cons waits xs ys = refl

  joined-nil : (ys : Outcome (List String)) → ys ≡ joined (returns []) ys
  joined-nil (returns ys) = refl
  joined-nil (fails e) = refl
  joined-nil (panics p) = refl
  joined-nil waits = refl

  pub listed-append :
      (volumes more : List Volume)
      → listed (volumes ++ more) ≡ joined (listed volumes) (listed more)
  unfolding listed
  listed-append [] more = joined-nil (listed more)
  listed-append (v ∷ volumes) more =
      ap
        (λ l.
          and_then (found_claim (claim_of claim v.source))
            λ o. and_then l λ rest. returns (disk_cids_of context o ++ rest))
        (listed-append volumes more)
      ∙ join-cons (found_claim (claim_of claim v.source)) (listed volumes) (listed more)

  -- The volume of a disk whose claim carries its label.
  pub listed-disk :
      (disk_id : String) (pvc : PersistentVolumeClaim)
      → claim (disk_name disk_id) ≡ ok pvc
      → lookup disk_id_label (dict_of pvc.meta.labels) ≡ some disk_id
      → listed (disk_volume disk_id ∷ []) ≡ returns (new_disk_cid context disk_id ∷ [])
  unfolding listed disk_cids_of
  listed-disk disk_id pvc found label = rw found (rw label)

-- Reading claims leaves the claims that the server answers with.
module _ (W : World) (client : Client) (claims : W.State → String → Result PersistentVolumeClaim)
    (get_claim : (name : String) (s : W.State) → (W.claims.get client name s).0 ≡ claims s name)
    (same_claims : (name : String) → Leaves claims (W.claims.get client name)) where
  claim_read :
      (source : VolumeSource) (s : W.State)
      → ((get_pv_claim W client source s).0 ≡ claim_of (claims s) source)
        × (claims (get_pv_claim W client source s).1 ≡ claims s)
  unfolding get_pv_claim
  claim_read (persistent_volume_claim name) s =
      (ap claimed (get_claim name s), (same_claims name).at s)
  claim_read _ s = (refl, refl)

  pub collect_disks-listed :
      (context : String) (volumes : List Volume) (s : W.State)
      → (collect_disks W client context volumes s).0 ≡ listed (claims s) context volumes
  unfolding collect_disks listed pure
  collect_disks-listed context [] s = refl
  collect_disks-listed context (v ∷ volumes) s =
      let (answer, same) = claim_read v.source s in
      let with_rest : Option PersistentVolumeClaim → Outcome (List String) → Outcome (List String) =
        λ o l. and_then l λ rest. returns (disk_cids_of context o ++ rest) in
      bind-value _ _ (λ o. with_rest o (listed (claims s) context volumes)) s
        (λ o.
          bind-value (collect_disks W client context volumes) _ _ _ (λ rest. refl)
          ∙ ap (with_rest o)
              (collect_disks-listed context volumes _ ∙ ap (λ c. listed c context volumes) same))
      ∙ ap (λ r. and_then (found_claim r) λ o. with_rest o (listed (claims s) context volumes))
          answer
