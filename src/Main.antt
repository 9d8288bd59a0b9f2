-- ===== src/Main.antt =====
-- cmd/cpi/main.go: the action that a request's method names, and what happens to errors.
pub mod Types
pub mod Typed
pub mod Table
pub mod Program
pub mod Isolation
use kubernetes_cpi.Base.{String, ◌≡◌, refl, ap, [], ◌∷◌, ◌==◌, if◌then◌else◌}
use kubernetes_cpi.Exec.{Error, errorf, Outcome, returns, fails, panics, waits, Exec, continue}
use kubernetes_cpi.Cpi.{as_error, not_supported_error, not_implemented_error}

pub data Action : Type 0 where
  info create_stemcell delete_stemcell create_vm delete_vm has_vm set_vm_metadata : Action
  create_disk attach_disk set_disk_metadata has_disk delete_disk detach_disk get_disks : Action

-- The switch over the method.
unfoldable pub route : String → Outcome Action
route method =
    if method == "info"
    then returns info
    else if method == "create_stemcell"
    then returns create_stemcell
    else if method == "delete_stemcell"
    then returns delete_stemcell
    else if method == "create_vm"
    then returns create_vm
    else if method == "delete_vm"
    then returns delete_vm
    else if method == "has_vm"
    then returns has_vm
    else if method == "set_vm_metadata"
    then returns set_vm_metadata
    else if method == "create_disk"
    then returns create_disk
    else if method == "attach_disk"
    then returns attach_disk
    else if method == "set_disk_metadata"
    then returns set_disk_metadata
    else if method == "has_disk"
    then returns has_disk
    else if method == "delete_disk"
    then returns delete_disk
    else if method == "detach_disk"
    then returns detach_disk
    else if method == "get_disks"
    then returns get_disks
    else if method == "configure_networks"
    then fails (as_error not_supported_error)
    else if method == "reboot_vm"
    then fails (as_error not_supported_error)
    else if method == "snapshot_disk"
    then fails (as_error not_implemented_error)
    else if method == "delete_snapshot"
    then fails (as_error not_implemented_error)
    else fails (errorf "Unexpected method: %q" (method ∷ []))

-- if err != nil { panic(err) }
abbrev pub or_panic {ℓ} : {A : Type ℓ} → (Error → String) → Outcome A → Outcome A
or_panic message (returns a) = returns a
or_panic message (fails e) = panics (message e)
or_panic message (panics p) = panics p
or_panic message waits = waits

-- The action's dispatch gives the response, which is printed.
unfoldable pub handle {ℓ} :
    {S : Type 0} {A : Type ℓ} → (Error → String) → (Action → Exec S A) → String → Exec S A
unfolding route
handle message dispatch_to method s =
    let (r, s') = continue (route method) dispatch_to s in (or_panic message r, s')

-- The name by which the director calls an action.
abbrev pub method_name : Action → String
method_name info = "info"
method_name create_stemcell = "create_stemcell"
method_name delete_stemcell = "delete_stemcell"
method_name create_vm = "create_vm"
method_name delete_vm = "delete_vm"
method_name has_vm = "has_vm"
method_name set_vm_metadata = "set_vm_metadata"
method_name create_disk = "create_disk"
method_name attach_disk = "attach_disk"
method_name set_disk_metadata = "set_disk_metadata"
method_name has_disk = "has_disk"
method_name delete_disk = "delete_disk"
method_name detach_disk = "detach_disk"
method_name get_disks = "get_disks"

route-method_name : (a : Action) → route (method_name a) ≡ returns a
unfolding route
route-method_name info = refl
route-method_name create_stemcell = refl
route-method_name delete_stemcell = refl
route-method_name create_vm = refl
route-method_name delete_vm = refl
route-method_name has_vm = refl
route-method_name set_vm_metadata = refl
route-method_name create_disk = refl
route-method_name attach_disk = refl
route-method_name set_disk_metadata = refl
route-method_name has_disk = refl
route-method_name delete_disk = refl
route-method_name detach_disk = refl
route-method_name get_disks = refl

-- A request for an action runs the action's dispatch from the same state; its state is the dispatch's,
-- and its result too, with an error turned into a panic.
pub handle-method_name :
    {S A : Type 0} (message : Error → String) (dispatch_to : Action → Exec S A) (a : Action) (s : S)
    → handle message dispatch_to (method_name a) s
      ≡ (or_panic message (dispatch_to a s).0, (dispatch_to a s).1)
unfolding handle
handle-method_name message dispatch_to a s =
    ap
      (λ (o : Outcome Action).
        (or_panic message (continue o dispatch_to s).0, (continue o dispatch_to s).1))
      (route-method_name a)
