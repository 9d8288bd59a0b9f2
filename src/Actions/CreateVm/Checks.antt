-- ===== src/Actions/CreateVm/Checks.antt =====
-- What the checks and the builders of `Create` promise.
use kubernetes_cpi.Base.{
  String, ◌≡◌, refl, sym, ap, ◌∙◌, ◌≢◌, ◌↔◌, ◌⊎◌, inl, inr, Bool, true, not, ◌&&◌, ◌≤◌, leb, Option,
  none, some, [], ◌∷◌, Dict, lookup, insert, lookup-insert, dict_of, Bool-cases, ◌==◌, eq_iff,
  arith, if◌then◌else◌,
}
use kubernetes_cpi.Exec.{Outcome, returns, Result, ok, err, of_result, wrap_with, and_then}
use kubernetes_cpi.Kube.Objects.{ℤ, pos, negsuc, Foreign, ResourceList, Deployment}
use kubernetes_cpi.Text.{is_empty}
use kubernetes_cpi.Actions.CreateVm.Props
use kubernetes_cpi.Actions.CreateVm.Resources.{kube_resource_name, add_resources, get_resource_list}
use kubernetes_cpi.Actions.CreateVm.Services.{kube_service, kube_service_type}
use kubernetes_cpi.Actions.CreateVm.Pods.{is_deployment_ready, int_eq, enough_replicas}

module _ (parse_quantity : String → Result Foreign) where
  -- The name of a resource that is supported, with a quantity that is one.
  abbrev pub Supported : String → String → Type 0
  Supported k v = ((k ≡ "memory") ⊎ (k ≡ "cpu")) × ((q : Foreign) × (parse_quantity v ≡ ok q))

  abbrev pub AllSupported : Dict String → Type 0
  AllSupported [] = Unit {0}
  AllSupported ((k, v) ∷ resources) = Supported k v × AllSupported resources

  supported_name :
      (k : String) {name : String}
      → kube_resource_name k ≡ returns name
      → ((k ≡ "memory") ⊎ (k ≡ "cpu")) × (name ≡ k)
  unfolding kube_resource_name
  supported_name k h = elim (Bool-cases (k == "memory")) [
    | inl memory ↦ (inl ((eq_iff _ _).0 memory), cc (rw memory at h, (eq_iff _ _).0 memory))
    | inr other ↦ elim (Bool-cases (k == "cpu")) [
      | inl cpu ↦ (inr ((eq_iff _ _).0 cpu), cc (rw (other, cpu) at h, (eq_iff _ _).0 cpu))
      | inr neither ↦ cc (rw (other, neither) at h)
    ]
  ]

  -- The list gets no name but the two.
  abbrev NoOthers : Dict Foreign → Dict Foreign → Type 0
  NoOthers list list' =
      (j : String) → j ≢ "memory" → j ≢ "cpu" → lookup j list ≡ none → lookup j list' ≡ none

  other_name :
      (k name j : String) (q : Foreign) (list : Dict Foreign)
      → (k ≡ "memory") ⊎ (k ≡ "cpu")
      → name ≡ k
      → j ≢ "memory"
      → j ≢ "cpu"
      → lookup j list ≡ none
      → lookup j (insert name q list) ≡ none
  other_name k name j q list known same nm nc fresh =
      lookup-insert name j q list ∙ elim (Bool-cases (name == j)) [
        | inr differ ↦ rw differ fresh
        | inl equal ↦ absurd (impossible known (sym ((eq_iff name j).0 equal) ∙ same))
      ]
    where
      impossible : (k ≡ "memory") ⊎ (k ≡ "cpu") → j ≡ k → ⊥
      impossible (inl memory) e = nm (e ∙ memory)
      impossible (inr cpu) e = nc (e ∙ cpu)

  module _ (k v : String) (resources : Dict String) (list list' : Dict Foreign)
      (rest : (name : String) (q : Foreign)
        → add_resources parse_quantity resources (insert name q list) ≡ returns list'
        → AllSupported resources × NoOthers (insert name q list) list') where
    after_name :
        (q : Foreign) (o : Outcome String)
        → parse_quantity v ≡ ok q
        → kube_resource_name k ≡ o
        → and_then
            (wrap_with "Getting kube resource name" o)
            (λ name. add_resources parse_quantity resources (insert name q list))
          ≡ returns list'
        → AllSupported ((k, v) ∷ resources) × NoOthers list list'
    after_name q (returns name) e f g =
        let (known, same) = supported_name k f in
        let (supported, others) = rest name q g in
        (
          ((known, (q, e)), supported),
          λ j nm nc fresh. others j nm nc (other_name k name j q list known same nm nc fresh),
        )
    after_name q _ e f g = cc

    after_quantity :
        (r : Result Foreign)
        → parse_quantity v ≡ r
        → and_then (wrap_with "Parsing quantity" (of_result r)) (λ q.
          and_then
            (wrap_with "Getting kube resource name" (kube_resource_name k))
            (λ name. add_resources parse_quantity resources (insert name q list)))
          ≡ returns list'
        → AllSupported ((k, v) ∷ resources) × NoOthers list list'
    after_quantity (ok q) e g = after_name q (kube_resource_name k) e refl g
    after_quantity (err e) f g = cc

  add_resources-of :
      (resources : Dict String) (list : Dict Foreign) {list' : Dict Foreign}
      → add_resources parse_quantity resources list ≡ returns list'
      → AllSupported resources × NoOthers list list'
  unfolding add_resources
  add_resources-of [] list h = (tt, λ j nm nc fresh. rw (← returned h) fresh)
    where
      returned : {a b : Dict Foreign} → returns a ≡ returns b → a ≡ b
      returned h = cc
  add_resources-of ((k, v) ∷ resources) list {list'} h =
      after_quantity k v resources list list'
        (λ name q. add_resources-of resources (insert name q list)) (parse_quantity v) refl h

  -- If a resource list is accepted, each of its names is "memory" or "cpu" and each quantity parses;
  -- the list for Kubernetes has no other name.
  pub get_resource_list-supported :
      (resources : Option (Dict String)) {list : ResourceList} (j : String)
      → get_resource_list parse_quantity resources ≡ returns list
      → j ≢ "memory"
      → j ≢ "cpu"
      → AllSupported (dict_of resources) × (lookup j (dict_of list) ≡ none)
  unfolding get_resource_list lookup
  get_resource_list-supported none {list} j h nm nc = let e : none ≡ list = cc in (tt, rw (← e))
  get_resource_list-supported (some resources) {list} j h nm nc =
      built (add_resources parse_quantity resources []) refl h
    where
      built :
          (o : Outcome (Dict Foreign))
          → add_resources parse_quantity resources [] ≡ o
          → and_then o (λ l. returns (some l)) ≡ returns list
          → AllSupported resources × (lookup j (dict_of list) ≡ none)
      built (returns l) e g =
          let (supported, others) = add_resources-of resources [] e in
          let same : some l ≡ list = cc in (supported, rw (← same) (others j nm nc refl))
      built _ e g = cc

int_eq_iff : (m n : ℤ) → (int_eq m n ≡ true) ↔ (m ≡ n)
int_eq_iff (pos m) (pos n) = ground arith
int_eq_iff (negsuc m) (negsuc n) = ground arith
int_eq_iff (pos m) (negsuc n) = (λ h. cc, λ h. cc)
int_eq_iff (negsuc m) (pos n) = (λ h. cc, λ h. cc)

enough_replicas_iff :
    (available : ℤ) (replicas : Option ℤ)
    → (enough_replicas available replicas ≡ returns true) ↔ (replicas ≡ some available)
enough_replicas_iff available none = (λ h. cc, λ h. cc)
enough_replicas_iff available (some n) = (
  λ h. ap (λ (x : ℤ). some x) (sym ((int_eq_iff available n).0 (returned h))),
  λ h. ap (λ (b : Bool). returns b) ((int_eq_iff available n).1 (cc)),
)
  where
    returned : {a b : Bool} → returns a ≡ returns b → a ≡ b
    returned h = cc

-- A deployment is ready exactly if its last change has been observed and as many replicas are
-- available as it asks for.
pub is_deployment_ready_iff :
    (d : Deployment)
    → (is_deployment_ready d ≡ returns true)
      ↔ ((d.meta.generation ≤ d.observed_generation) × (d.replicas ≡ some d.available_replicas))
unfolding is_deployment_ready
is_deployment_ready_iff d = elim (Bool-cases (leb d.meta.generation d.observed_generation)) [
  | inl seen ↦ rw seen (
    λ h. (ground arith, (enough_replicas_iff d.available_replicas d.replicas).0 h),
    λ (le, h). (enough_replicas_iff d.available_replicas d.replicas).1 h,
  )
  | inr unseen ↦ (λ h. cc (rw unseen at h), λ (le, h). absurd (ground arith))
]

selects_some :
    (own : Option (Dict String)) (key value : String)
    → dict_of (if not (is_empty (dict_of own)) then own else some ((key, value) ∷ [])) ≢ []
selects_some own key value h = elim (Bool-cases (is_empty (dict_of own))) [
  | inl empty ↦ cc (rw empty at h)
  | inr nonempty ↦ cc (rw nonempty at h, nonempty)
]

three_types :
    (t : String)
    → (kube_service_type t ≡ "ClusterIP")
      ⊎ ((kube_service_type t ≡ "NodePort") ⊎ (kube_service_type t ≡ "LoadBalancer"))
unfolding kube_service_type
three_types t = elim (Bool-cases (t == "NodePort")) [
  | inl node_port ↦ inr (inl (rw node_port))
  | inr other ↦ elim (Bool-cases (t == "LoadBalancer")) [
    | inl balancer ↦ inr (inr (rw (other, balancer)))
    | inr neither ↦ inl (rw (other, neither))
  ]
]

address_needs_balancer :
    (t address : String)
    → ((if t == "LoadBalancer" && not (address == "") then address else "") ≡ "")
      ⊎ (t ≡ "LoadBalancer")
address_needs_balancer t address = elim (Bool-cases (t == "LoadBalancer")) [
  | inl balancer ↦ inr ((eq_iff _ _).0 balancer)
  | inr other ↦ inl (rw other)
]

-- A service always selects pods, by its own selector or by the agent's label; its type is one of
-- three, and it has a load balancer's address only if it is one.
pub kube_service_lem :
    (ns agent_id : String) (svc : Props.Service)
    → let service = kube_service ns agent_id svc in
      (dict_of service.selector ≢ [])
      × ((service.service_type ≡ "ClusterIP")
          ⊎ ((service.service_type ≡ "NodePort") ⊎ (service.service_type ≡ "LoadBalancer")))
      × ((service.load_balancer_ip ≡ "") ⊎ (service.service_type ≡ "LoadBalancer"))
unfolding kube_service
kube_service_lem ns agent_id svc = (
  selects_some svc.selector _ agent_id,
  three_types svc.service_type,
  address_needs_balancer _ svc.load_balancer_ip,
)
