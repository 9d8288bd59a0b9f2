-- ===== src/Actions/Disks/Labels.antt =====
-- The metadata of a disk as labels of its claim: all of it, or none.
use kubernetes_cpi.Base.{
  String, ◌≡◌, refl, sym, ap, ◌∙◌, ◌↔◌, inl, inr, true, if◌then◌else◌, ◌<>◌, [], ◌∷◌, Dict, insert,
  Bool-cases, ◌==◌,
}
use kubernetes_cpi.Exec.{returns}
use kubernetes_cpi.Text.{is_empty, replace_colons}
use kubernetes_cpi.Kube.World.{World}
use kubernetes_cpi.Actions.Disks.{label_value, set_disk_labels}

module _ (W : World) where
  -- The value of a pair as a label: that of "attached_at" with each colon replaced, else as it is.
  abbrev pub label_text : String → String → String
  label_text k v = if k == "attached_at" then replace_colons v else v

  -- A pair that Kubernetes takes as a label, with the key after a prefix.
  abbrev pub IsLabel : String → String → Type 0
  IsLabel k v =
      (is_empty (W.is_qualified_name ("bosh.cloudfoundry.org/" <> k)) ≡ true)
      × (is_empty (W.is_valid_label_value (label_text k v)) ≡ true)

  abbrev pub AllLabels : Dict String → Type 0
  AllLabels [] = Unit {0}
  AllLabels ((k, v) ∷ metadata) = IsLabel k v × AllLabels metadata

  -- The labels with each pair of the metadata written in this form, later pairs last.
  abbrev pub relabelled : Dict String → Dict String → Dict String
  relabelled [] labels = labels
  relabelled ((k, v) ∷ metadata) labels =
      relabelled metadata (insert ("bosh.cloudfoundry.org/" <> k) (label_text k v) labels)

  set_disk_labels-all :
      (metadata labels : Dict String)
      → AllLabels metadata
      → set_disk_labels W metadata labels ≡ returns (relabelled metadata labels)
  unfolding set_disk_labels label_value
  set_disk_labels-all [] labels h = refl
  set_disk_labels-all ((k, v) ∷ metadata) labels ((hk, hv), h) =
      rw (hk, hv) (set_disk_labels-all metadata _ h)

  set_disk_labels-of :
      (metadata labels : Dict String) {labels' : Dict String}
      → set_disk_labels W metadata labels ≡ returns labels'
      → AllLabels metadata
  unfolding set_disk_labels label_value
  set_disk_labels-of [] labels e = tt
  set_disk_labels-of ((k, v) ∷ metadata) labels e =
      elim (Bool-cases (is_empty (W.is_qualified_name ("bosh.cloudfoundry.org/" <> k)))) [
        | inr bad ↦ cc (rw bad at e)
        | inl hk ↦ elim (Bool-cases (is_empty (W.is_valid_label_value (label_text k v)))) [
          | inr bad ↦ cc (rw (hk, bad) at e)
          | inl hv ↦ ((hk, hv), set_disk_labels-of metadata _ (rw (hk, hv) at e))
        ]
      ]

  -- The metadata is accepted exactly if every pair of it is a label for Kubernetes, and then every
  -- pair is written.
  pub set_disk_labels_iff :
      (metadata labels labels' : Dict String)
      → (set_disk_labels W metadata labels ≡ returns labels')
        ↔ (AllLabels metadata × (relabelled metadata labels ≡ labels'))
  set_disk_labels_iff metadata labels labels' = (
    λ e.
        let h = set_disk_labels-of metadata labels e in
        (h, returns_injective (sym (set_disk_labels-all metadata labels h) ∙ e)),
    λ (h, e). set_disk_labels-all metadata labels h ∙ ap (λ (l : Dict String). returns l) e,
  )
    where
      returns_injective : {a b : Dict String} → returns a ≡ returns b → a ≡ b
      returns_injective h = cc
