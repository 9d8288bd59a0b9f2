-- ===== src/Main/Types.antt =====
-- The Go types that cross `cpi.Dispatch`, with their values: of the parameters of the actions, which
-- JSON arguments are read at, and of what the actions return.
use kubernetes_cpi.Base.{
  ℕ, String, ◌≡◌, refl, ap, ◌∙◌, Bool, Option, none, some, List, [], ◌∷◌, Dict,
}
use kubernetes_cpi.Exec.{panics, Exec}
use kubernetes_cpi.Cpi.{Networks}
use kubernetes_cpi.Actions.Stemcell.{StemcellCloudProperties}
use kubernetes_cpi.Actions.CreateVm.Props.{VmCloudProperties}
use kubernetes_cpi.Actions.Disks.{CreateDiskCloudProperties}

-- `text` is string, `size` uint, `disk_cids` []cpi.DiskCID, `environment` cpi.Environment, `metadata`
-- and `texts` map[string]string, `flag` bool.
pub data GoType : Type 0 where
  text stemcell_cid vmcid disk_cid size disk_cids networks : GoType
  environment metadata stemcell_properties vm_properties disk_properties flag texts : GoType

-- An environment is carried along as JSON text.
abbrev pub GoValue : GoType → Type 0
GoValue text = String
GoValue stemcell_cid = String
GoValue vmcid = String
GoValue disk_cid = String
GoValue size = ℕ
GoValue disk_cids = List String
GoValue networks = Networks
GoValue environment = String
GoValue metadata = Dict String
GoValue stemcell_properties = StemcellCloudProperties
GoValue vm_properties = VmCloudProperties
GoValue disk_properties = CreateDiskCloudProperties
GoValue flag = Bool
GoValue texts = Dict String

-- A reflect.Value: a value with its type.
abbrev pub Value : Type 0
Value = (t : GoType) × GoValue t

-- The value at a type, if it is of that type.
unfoldable pub cast : (t u : GoType) → GoValue u → Option (GoValue t)
cast text text v = some v
cast stemcell_cid stemcell_cid v = some v
cast vmcid vmcid v = some v
cast disk_cid disk_cid v = some v
cast size size v = some v
cast disk_cids disk_cids v = some v
cast networks networks v = some v
cast environment environment v = some v
cast metadata metadata v = some v
cast stemcell_properties stemcell_properties v = some v
cast vm_properties vm_properties v = some v
cast disk_properties disk_properties v = some v
cast flag flag v = some v
cast texts texts v = some v
cast _ _ v = none

pub cast-same : (t : GoType) (v : GoValue t) → cast t t v ≡ some v
unfolding cast
cast-same text v = refl
cast-same stemcell_cid v = refl
cast-same vmcid v = refl
cast-same disk_cid v = refl
cast-same size v = refl
cast-same disk_cids v = refl
cast-same networks v = refl
cast-same environment v = refl
cast-same metadata v = refl
cast-same stemcell_properties v = refl
cast-same vm_properties v = refl
cast-same disk_properties v = refl
cast-same flag v = refl
cast-same texts v = refl

-- A Go function with parameters of the types.
abbrev pub Func : Type 0 → List GoType → Type 0
Func R [] = R
Func R (t ∷ types) = GoValue t → Func R types

-- Arguments of the types.
abbrev pub Args : List GoType → Type 0
Args [] = Unit {0}
Args (t ∷ types) = GoValue t × Args types

abbrev pub apply : {R : Type 0} (types : List GoType) → Func R types → Args types → R
apply [] f args = f
apply (t ∷ types) f (v, args) = apply types (f v) args

abbrev pub values_of : (types : List GoType) → Args types → List Value
values_of [] args = []
values_of (t ∷ types) (v, args) = (t, v) ∷ values_of types args

module _ {S R : Type 0} where
  abbrev pub call_with : {A : Type 0} → Option A → (A → Exec S R) → Exec S R
  call_with none f s = (panics "reflect: Call using another type", s)
  call_with (some a) f s = f a s

  -- reflect.Value.Call, which panics on values of other types and on another number of them.
  unfoldable pub call_func : (types : List GoType) → Func (Exec S R) types → List Value → Exec S R
  unfolding cast
  call_func [] f [] s = f s
  call_func [] f (v ∷ values) s = (panics "reflect: Call with too many input arguments", s)
  call_func (t ∷ types) f [] s = (panics "reflect: Call with too few input arguments", s)
  call_func (t ∷ types) f ((u, v) ∷ values) s =
      call_with (cast t u v) (λ w. call_func types (f w) values) s

  -- Called with arguments of its types, a function gets them.
  pub call_func-apply :
      (types : List GoType) (f : Func (Exec S R) types) (args : Args types) (s : S)
      → call_func types f (values_of types args) s ≡ apply types f args s
  unfolding call_func
  call_func-apply [] f args s = refl
  call_func-apply (t ∷ types) f (v, args) s =
      ap (λ o. call_with o (λ w. call_func types (f w) (values_of types args)) s) (cast-same t v)
      ∙ call_func-apply types (f v) args s
