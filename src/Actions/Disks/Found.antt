-- ===== src/Actions/Disks/Found.antt =====
-- `HasDisk` of a disk that `CreateDisk` has made.
use kubernetes_cpi.Base.{
  ℕ, String, ◌<>◌, ◌≡◌, refl, sym, ap, ◌∙◌, true, false, some, List, lookup, dict_of,
}
use kubernetes_cpi.Exec.{returns, ok, Call, ◌>>=◌}
use kubernetes_cpi.Exec.Keeps.{Keeps, Leaves, keeps_rules}
use kubernetes_cpi.Exec.Returns.{call-step, result-step, wrapped-step, pure-value, pure-Runs}
use kubernetes_cpi.Text.{is_empty}
use kubernetes_cpi.Cid.{new_disk_cid, parse_disk_cid, parse_vmcid}
use kubernetes_cpi.Cid.Laws.{has_colon, parse-new_vmcid, parse_disk_cid-eq, new_disk_cid-eq}
use kubernetes_cpi.Kube.Objects.{PersistentVolumeClaim}
use kubernetes_cpi.Kube.World.{World, Client, WatchOptions}
use kubernetes_cpi.Actions.Names.{disk_id_label}
use kubernetes_cpi.Actions.Disks.{
  CreateDiskCloudProperties, disk_claim, wait_for_disk, create_disk, has_disk,
}
use kubernetes_cpi.Actions.Disks.Create.{wait_for_disk-success}

-- What the API server does with claims while nobody else writes: a listing by a label answers with the
-- claims that carry it, and a claim that was created is among them; a watch and a new client leave
-- the claims. The context of a client names the same client at any time.
pub record Lists (W : World) : Type 0 where
  -- The claims with a disk's label.
  pub labelled : W.State → Client → String → List PersistentVolumeClaim
  pub list :
      (c : Client) (disk_id selector : String) (s : W.State)
      → W.parse_selector (disk_id_label <> "=" <> disk_id) ≡ ok selector
      → (W.claims.list c selector s).0 ≡ ok (labelled s c disk_id)
  pub create :
      (c : Client) (pvc : PersistentVolumeClaim) (disk_id : String) (s : W.State)
      (q : PersistentVolumeClaim)
      → (W.claims.create c pvc s).0 ≡ ok q
      → lookup disk_id_label (dict_of pvc.meta.labels) ≡ some disk_id
      → is_empty (labelled (W.claims.create c pvc s).1 c disk_id) ≡ false
  pub watch : (c : Client) (o : WatchOptions) (t : ℕ) → Leaves labelled (W.claims.watch c o t)
  pub new_client_leaves : (x : String) → Leaves labelled (W.new_client x)
  pub new_client :
      (x : String) (c : Client) (s t : W.State)
      → (W.new_client x s).0 ≡ ok c
      → (W.new_client c.context t).0 ≡ ok c

module _ (W : World) (L : Lists W) where
  wait_for_disk-Keeps :
      (timeout : ℕ) (c : Client) (disk_id version : String)
      → Keeps L.labelled (wait_for_disk W timeout c disk_id version)
  unfolding wait_for_disk
  wait_for_disk-Keeps timeout c disk_id version = search (keeps_rules, L.watch)

  parsed_cid :
      (context disk_id : String)
      → has_colon context ≡ false
      → parse_disk_cid (new_disk_cid context disk_id) ≡ returns (context, disk_id)
  parsed_cid context disk_id no_colon =
      parse_disk_cid-eq (new_disk_cid context disk_id)
      ∙ ap parse_vmcid (new_disk_cid-eq context disk_id)
      ∙ parse-new_vmcid context disk_id no_colon

  has_disk-labelled :
      (client : Client) (disk_id selector : String) (t u : W.State)
      → has_colon client.context ≡ false
      → W.parse_selector (disk_id_label <> "=" <> disk_id) ≡ ok selector
      → (W.new_client client.context t).0 ≡ ok client
      → is_empty (L.labelled t client disk_id) ≡ false
      → (has_disk W (new_disk_cid client.context disk_id) t).0 ≡ returns true
  unfolding has_disk ◌>>=◌
  has_disk-labelled client disk_id selector t u no_colon parsed found there =
      rw (parsed_cid client.context disk_id no_colon) (
        rw parsed (
          rw found (
            rw
              (
                L.list client disk_id selector (W.new_client client.context t).1 parsed,
                (L.new_client_leaves client.context).at t,
                there,
              )
              refl)))

  -- On a server on which nobody else writes, and in whose configuration no name of a context has a
  -- colon, `HasDisk` finds a disk that was created.
  pub create_disk-has_disk :
      (guid : Call W.State String) (timeout size : ℕ) (props : CreateDiskCloudProperties)
      (vmcid cid : String) (s t : W.State)
      → ((c : Client)
          → (W.new_client props.context (guid s).1).0 ≡ ok c
          → has_colon c.context ≡ false)
      → (create_disk W guid timeout size props vmcid s).0 ≡ returns cid
      → (create_disk W guid timeout size props vmcid s).1 ≡ t
      → (has_disk W cid t).0 ≡ returns true
  unfolding create_disk disk_claim lookup
  create_disk-has_disk guid timeout size props vmcid cid s t no_colon done end =
      call-step _ _ _ _ (done, end)
        λ disk_id generated h1. result-step _ _ _ _ h1 λ quantity parsed h2.
          call-step _ _ _ _ h2 λ client found h3. call-step _ _ _ _ h3 λ pvc asked h4.
            wrapped-step _ _ _ _ h4 λ u waited h5.
              let (selector, signals, selected, watched, shown) =
                wait_for_disk-success W timeout client disk_id _ _ _ (waited, refl) in
              ap (λ c. (has_disk W c t).0) (sym (pure-value _ _ h5))
              ∙ has_disk-labelled client disk_id selector t t (no_colon client found) selected
                  (L.new_client props.context client _ t found)
                  (ap (λ x. is_empty (L.labelled x client disk_id)) (sym (pure-Runs _ _ h5))
                    ∙ ap (λ g. is_empty (g client disk_id))
                        ((wait_for_disk-Keeps timeout client disk_id _).at _)
                    ∙ L.create client _ disk_id _ pvc asked refl)
