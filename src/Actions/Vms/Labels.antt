-- ===== src/Actions/Vms/Labels.antt =====
-- The metadata of a VM as labels of its pod: the pairs that are no labels are left out.
use kubernetes_cpi.Base.{
  String, ◌<>◌, ◌≡◌, refl, Bool, false, ◌&&◌, none, some, [], ◌∷◌, Dict, insert, Bool-cases, inl,
  inr, if◌then◌else◌, ◌||◌,
}
use kubernetes_cpi.Exec.{returns, panics}
use kubernetes_cpi.Text.{is_empty, to_lower}
use kubernetes_cpi.Kube.World.{World}
use kubernetes_cpi.Actions.Vms.{set_vm_labels}

module _ (W : World) where
  -- The key of a pair as a label: in lower case, after a prefix.
  abbrev pub key_text : String → String
  key_text k = "bosh.cloudfoundry.org/" <> to_lower W.lower_unicode k

  -- The pair is a label for Kubernetes, with this key.
  abbrev pub is_label : String → String → Bool
  is_label k v = is_empty (W.is_qualified_name (key_text k)) && is_empty (W.is_valid_label_value v)

  abbrev pub has_label : Dict String → Bool
  has_label [] = false
  has_label ((k, v) ∷ metadata) = is_label k v || has_label metadata

  -- The labels with the pairs written, in this form, that are labels, in order.
  abbrev pub relabelled : Dict String → Dict String → Dict String
  relabelled [] labels = labels
  relabelled ((k, v) ∷ metadata) labels =
      relabelled metadata (if is_label k v then insert (key_text k) v labels else labels)

  -- On a pod with labels the loop succeeds, and writes exactly the pairs that are labels.
  pub set_vm_labels-some :
      (metadata labels : Dict String)
      → set_vm_labels W metadata (some labels) ≡ returns (some (relabelled metadata labels))
  unfolding set_vm_labels
  set_vm_labels-some [] labels = refl
  set_vm_labels-some ((k, v) ∷ metadata) labels = elim (Bool-cases (is_label k v)) [
    | inl valid ↦ rw valid (set_vm_labels-some metadata _)
    | inr other ↦ rw other (set_vm_labels-some metadata labels)
  ]

  -- On a pod with no labels at all the loop panics as soon as a pair is a label, and otherwise leaves
  -- the pod as it is.
  pub set_vm_labels-none :
      (metadata : Dict String)
      → set_vm_labels W metadata none
        ≡ (if has_label metadata then panics "assignment to entry in nil map" else returns none)
  unfolding set_vm_labels
  set_vm_labels-none [] = refl
  set_vm_labels-none ((k, v) ∷ metadata) = elim (Bool-cases (is_label k v)) [
    | inl valid ↦ rw valid
    | inr other ↦ rw other (set_vm_labels-none metadata)
  ]
