-- ===== src/Main/Program/Routes.antt =====
-- The method of a request that is handled without a panic.
use kubernetes_cpi.Base.{
  String, ◌≡◌, refl, ap, ◌∙◌, Bool, true, false, ◌==◌, eq_iff, Bool-cases, inl, inr, if◌then◌else◌,
}
use kubernetes_cpi.Exec.{Error, Outcome, returns, fails, panics, waits, Exec, continue}
use kubernetes_cpi.Exec.Returns.{Runs}
use kubernetes_cpi.Main.{
  Action, info, create_stemcell, delete_stemcell, create_vm, delete_vm, has_vm, set_vm_metadata,
  create_disk, attach_disk, set_disk_metadata, has_disk, delete_disk, detach_disk, get_disks, route,
  or_panic, handle, method_name,
}

module _ {P : Type 0} {action : Action} where
  case_of :
      (method name : String) (a : Action) (rest : Outcome Action)
      → name ≡ method_name a
      → (if method == name then returns a else rest) ≡ returns action
      → (method ≡ method_name action → P)
      → (rest ≡ returns action → P)
      → P
  case_of method name a rest named h found go = elim (Bool-cases (method == name)) [
    | inl same ↦
        let this : a ≡ action = cc (rw same at h) in
        found ((eq_iff method name).0 same ∙ named ∙ ap method_name this)
    | inr other ↦ go (rw other at h)
  ]

  refused_of :
      (b : Bool) (e : Error) (rest : Outcome Action)
      → (if b then fails e else rest) ≡ returns action
      → (rest ≡ returns action → P)
      → P
  refused_of true e rest h go = cc
  refused_of false e rest h go = go h

-- The switch takes only the methods' names.
pub route-returns :
    (method : String) {action : Action}
    → route method ≡ returns action
    → method ≡ method_name action
unfolding route
route-returns method h = case_of method _ info _ refl h id λ h.
    case_of method _ create_stemcell _ refl h id λ h.
      case_of method _ delete_stemcell _ refl h id λ h. case_of method _ create_vm _ refl h id λ h.
        case_of method _ delete_vm _ refl h id λ h. case_of method _ has_vm _ refl h id λ h.
          case_of method _ set_vm_metadata _ refl h id λ h.
            case_of method _ create_disk _ refl h id λ h.
              case_of method _ attach_disk _ refl h id λ h.
                case_of method _ set_disk_metadata _ refl h id λ h.
                  case_of method _ has_disk _ refl h id λ h.
                    case_of method _ delete_disk _ refl h id λ h.
                      case_of method _ detach_disk _ refl h id λ h.
                        case_of method _ get_disks _ refl h id λ h.
                          refused_of (method == "configure_networks") _ _ h λ h.
                            refused_of (method == "reboot_vm") _ _ h λ h.
                              refused_of (method == "snapshot_disk") _ _ h
                                λ h. refused_of (method == "delete_snapshot") _ _ h λ h. cc
  where
    id : {A : Type 0} → A → A
    id a = a

module _ {A : Type 0} (message : Error → String) where
  pub or_panic-returns : (o : Outcome A) {a : A} → or_panic message o ≡ returns a → o ≡ returns a
  or_panic-returns (returns b) h = h
  or_panic-returns (fails e) h = cc
  or_panic-returns (panics p) h = cc
  or_panic-returns waits h = cc

  -- A method that is handled names an action, and its dispatch succeeded.
  pub handle-Runs :
      {S : Type 0} (run_action : Action → Exec S A) (method : String) (s : S) {a : A} {t : S}
      → Runs (handle message run_action method) s a t
      → (action : Action) × (method ≡ method_name action) × Runs (run_action action) s a t
  unfolding handle
  handle-Runs run_action method s {a} {t} (r, e) = by (route method) refl (or_panic-returns _ r) e
    where
      by :
          (o : Outcome Action)
          → route method ≡ o
          → (continue o run_action s).0 ≡ returns a
          → (continue o run_action s).1 ≡ t
          → (action : Action) × (method ≡ method_name action) × Runs (run_action action) s a t
      by (returns action) named h i = (action, route-returns method named, (h, i))
      by (fails e) named h i = cc
      by (panics p) named h i = cc
      by waits named h i = cc
