-- ===== src/Actions/CreateVm/Resources.antt =====
-- actions/create_vm.go: `getPodResourceRequirements`, `getResourceList` and `kubeResourceName`.
use kubernetes_cpi.Base.{String, Option, none, some, [], ◌∷◌, Dict, insert, ◌==◌, if◌then◌else◌}
use kubernetes_cpi.Exec.{Outcome, returns, fails, Result, of_result, errorf, wrap_with, and_then}
use kubernetes_cpi.Kube.Objects.{Foreign, ResourceList, ResourceRequirements}
use kubernetes_cpi.Actions.CreateVm.Props.{Resources}

unfoldable pub kube_resource_name : String → Outcome String
kube_resource_name name =
    if name == "memory"
    then returns "memory"
    else if name == "cpu"
    then returns "cpu"
    else fails (errorf "%s is not a supported resource type" (name ∷ []))

module _ (parse_quantity : String → Result Foreign) where
  -- The loop over the names and quantities, onto the list built so far.
  unfoldable pub add_resources : Dict String → Dict Foreign → Outcome (Dict Foreign)
  unfolding kube_resource_name
  add_resources [] list = returns list
  add_resources ((k, v) ∷ resources) list =
      and_then (wrap_with "Parsing quantity" (of_result (parse_quantity v))) λ quantity.
        and_then (wrap_with "Getting kube resource name" (kube_resource_name k))
          λ name. add_resources resources (insert name quantity list)

  unfoldable pub get_resource_list : Option (Dict String) → Outcome ResourceList
  unfolding add_resources
  get_resource_list none = returns none
  get_resource_list (some resources) =
      and_then (add_resources resources []) (λ list. returns (some list))

  unfoldable pub get_pod_resource_requirements : Resources → Outcome ResourceRequirements
  unfolding get_resource_list
  get_pod_resource_requirements resources =
      and_then (wrap_with "Getting pod resource requirements" (get_resource_list resources.limits))
        λ limits.
          and_then (wrap_with "Getting resource list" (get_resource_list resources.requests))
            λ requests. returns (record { limits = limits; requests = requests })
