-- ===== src/Actions/Disks/Gone.antt =====
-- `HasDisk` of a disk that `DeleteDisk` has deleted.
use kubernetes_cpi.Base.{
  ℕ, String, ◌<>◌, ◌≡◌, refl, sym, ap, ◌∙◌, true, false, List, [], ◌∷◌, ◌==◌, eq_refl,
  if◌then◌else◌,
}
use kubernetes_cpi.Exec.{returns, ok, call, ◌>>=◌}
use kubernetes_cpi.Exec.Returns.{of_result-returns}
use kubernetes_cpi.Cid.{parse_disk_cid}
use kubernetes_cpi.Kube.Objects.{PersistentVolumeClaim}
use kubernetes_cpi.Kube.World.{World, Client}
use kubernetes_cpi.Actions.Names.{disk_id_label, disk_name}
use kubernetes_cpi.Actions.Disks.{delete_disk, has_disk}
use kubernetes_cpi.Actions.Disks.Found.{Lists}

-- The claims of other names, in order.
abbrev pub others : String → List PersistentVolumeClaim → List PersistentVolumeClaim
others name [] = []
others name (pvc ∷ claims) =
    let rest = others name claims in if pvc.meta.name == name then rest else pvc ∷ rest

abbrev pub AllNamed : String → List PersistentVolumeClaim → Type 0
AllNamed name [] = Unit {0}
AllNamed name (pvc ∷ claims) = (pvc.meta.name ≡ name) × AllNamed name claims

-- What the API server does with a claim that is deleted, while nobody else writes: a listing by a label
-- has it no more.
pub record Deletes (W : World) (L : Lists W) : Type 0 where
  pub delete :
      (c : Client) (name disk_id : String) (g : ℕ) (s : W.State)
      → (W.claims.delete c name g s).0 ≡ ok tt
      → L.labelled (W.claims.delete c name g s).1 c disk_id ≡ others name (L.labelled s c disk_id)

none_others :
    (name : String) (claims : List PersistentVolumeClaim)
    → AllNamed name claims
    → others name claims ≡ []
none_others name [] h = refl
none_others name (pvc ∷ claims) (here, h) =
    let same : (pvc.meta.name == name) ≡ true = ap (λ n. n == name) here ∙ eq_refl name in
    rw (same) (none_others name claims h)

module _ (W : World) (L : Lists W) (D : Deletes W L) where
  no_disk :
      (disk_cid : String) (t : W.State) {context disk_id selector : String} {client : Client}
      → parse_disk_cid disk_cid ≡ returns (context, disk_id)
      → W.parse_selector (disk_id_label <> "=" <> disk_id) ≡ ok selector
      → (W.new_client context t).0 ≡ ok client
      → L.labelled t client disk_id ≡ []
      → (has_disk W disk_cid t).0 ≡ returns false
  unfolding has_disk ◌>>=◌
  no_disk disk_cid t {context} {disk_id} {selector} {client} parsed selected found nothing =
      rw parsed (
        rw selected (
          rw found (
            rw
              (
                L.list client disk_id selector (W.new_client context t).1 selected,
                (L.new_client_leaves context).at t,
                nothing,
              )
              refl)))

  -- On a server on which nobody else writes: when a disk was deleted, whose label no claim of another
  -- name carries, `HasDisk` does not find it any more.
  pub delete_disk-has_disk :
      (disk_cid : String) (s t : W.State) {context disk_id selector : String} {client : Client}
      → parse_disk_cid disk_cid ≡ returns (context, disk_id)
      → W.parse_selector (disk_id_label <> "=" <> disk_id) ≡ ok selector
      → (W.new_client context s).0 ≡ ok client
      → (W.new_client context t).0 ≡ ok client
      → AllNamed (disk_name disk_id) (L.labelled s client disk_id)
      → (delete_disk W disk_cid s).0 ≡ returns tt
      → (delete_disk W disk_cid s).1 ≡ t
      → (has_disk W disk_cid t).0 ≡ returns false
  unfolding delete_disk call ◌>>=◌
  delete_disk-has_disk disk_cid s t {context} {disk_id} {selector} {client} parsed selected found
        found_again alone done end =
      let s1 = (W.new_client context s).1 in
      let deleted : (W.claims.delete client (disk_name disk_id) 0 s1).0 ≡ ok tt =
        of_result-returns _ (rw (parsed, found) at done) in
      let ended : (W.claims.delete client (disk_name disk_id) 0 s1).1 ≡ t =
        rw (parsed, found) at end in
      no_disk disk_cid t parsed selected found_again (
        ap (λ x. L.labelled x client disk_id) (sym ended)
        ∙ D.delete client (disk_name disk_id) disk_id 0 s1 deleted
        ∙ ap (λ g. others (disk_name disk_id) (g client disk_id))
            ((L.new_client_leaves context).at s)
        ∙ none_others (disk_name disk_id) (L.labelled s client disk_id) alone)
