-- ===== src/Actions/CreateVm/Kept.antt =====
-- What `Create` does with services, ingresses, secrets and files leaves the config maps.
use kubernetes_cpi.Base.{
  String, ◌≡◌, sym, ap, ◌∙◌, Bool, true, false, List, [], ◌∷◌, Dict, insert, dict_of,
}
use kubernetes_cpi.Exec.{Result, ok, err}
use kubernetes_cpi.Exec.Keeps.{Leaves}
use kubernetes_cpi.Kube.Objects
use kubernetes_cpi.Kube.Objects.{ConfigMap, Ingress}
use kubernetes_cpi.Kube.World.{World, Client}
use kubernetes_cpi.Kube.Server.{Server}
use kubernetes_cpi.Actions.CreateVm.Props
use kubernetes_cpi.Actions.CreateVm.Progress.Services.{ServiceThere, Exposed, AllExposed}
use kubernetes_cpi.Actions.CreateVm.Progress.Secrets.{Valued, AllRead, SecretMade, AllSecret}

-- What the API server does beside, while nobody else writes: a config map that is created is stored,
-- and the calls on services, ingresses and secrets leave config maps, as files do.
pub record Beside (W : World) (K : Server W) : Type 0 where
  pub create_config :
      (c : Client) (m : ConfigMap) (s : W.State) {m' : ConfigMap}
      → (W.config_maps.create c m s).0 ≡ ok m'
      → K.configs (W.config_maps.create c m s).1 c m.meta.name ≡ m.contents
  pub get_service : (c : Client) (n : String) → Leaves K.configs (W.services.get c n)
  pub create_service : (c : Client) (o : Objects.Service) → Leaves K.configs (W.services.create c o)
  pub create_ingress : (c : Client) (o : Ingress) → Leaves K.configs (W.ingresses.create c o)
  pub get_secret : (c : Client) (n : String) → Leaves K.configs (W.secrets.get c n)
  pub create_secret : (c : Client) (o : Objects.Secret) → Leaves K.configs (W.secrets.create c o)
  pub read_file : (path : String) → Leaves K.configs (W.read_file path)

module _ (W : World) (K : Server W) (B : Beside W K) (client : Client) (agent_id : String) where
  ServiceThere-kept :
      (service : Objects.Service) (r : Result Objects.Service) (s t : W.State)
      → ServiceThere W client agent_id service r s t
      → K.configs t ≡ K.configs s
  ServiceThere-kept service (ok found) s t h = ap K.configs (sym h)
  ServiceThere-kept service (err e) s t (made, asked, end) =
      ap K.configs (sym end) ∙ (B.create_service client service).at s

  Exposed-kept :
      (b : Bool) (svc : Props.Service) (s t : W.State)
      → Exposed W client agent_id b svc s t
      → K.configs t ≡ K.configs s
  Exposed-kept true svc s t (made, asked, end) =
      ap K.configs (sym end) ∙ (B.create_ingress client _).at s
  Exposed-kept false svc s t h = ServiceThere-kept _ _ _ t h ∙ (B.get_service client svc.name).at s

  pub AllExposed-kept :
      (services : List Props.Service) (s t : W.State)
      → AllExposed W client agent_id services s t
      → K.configs t ≡ K.configs s
  AllExposed-kept [] s t h = ap K.configs (sym h)
  AllExposed-kept (svc ∷ services) s t (u, one, rest) =
      AllExposed-kept services u t rest ∙ Exposed-kept _ svc s u one

  Valued-kept :
      (b : Bool) (v value : String) (s t : W.State)
      → Valued W b v s value t
      → K.configs t ≡ K.configs s
  Valued-kept true v value s t (read, end) = ap K.configs (sym end) ∙ (B.read_file v).at s
  Valued-kept false v value s t (same, end) = ap K.configs (sym end)

  AllRead-kept :
      (entries contents result : Dict String) (s t : W.State)
      → AllRead W entries contents s result t
      → K.configs t ≡ K.configs s
  AllRead-kept [] contents result s t (same, end) = ap K.configs (sym end)
  AllRead-kept ((k, v) ∷ entries) contents result s t (value, u, one, rest) =
      AllRead-kept entries (insert k value contents) result u t rest ∙ Valued-kept _ v value s u one

  SecretMade-kept :
      (srt : Props.Secret) (r : Result Objects.Secret) (s t : W.State)
      → SecretMade W client agent_id srt r s t
      → K.configs t ≡ K.configs s
  SecretMade-kept srt (ok found) s t h = absurd h
  SecretMade-kept srt (err e) s t (contents, u, made, read, (asked, end)) =
      ap K.configs (sym end)
      ∙ (B.create_secret client _).at u
      ∙ AllRead-kept (dict_of srt.contents) [] contents s u read

  pub AllSecret-kept :
      (secrets : List Props.Secret) (s t : W.State)
      → AllSecret W client agent_id secrets s t
      → K.configs t ≡ K.configs s
  AllSecret-kept [] s t h = ap K.configs (sym h)
  AllSecret-kept (srt ∷ secrets) s t (u, one, rest) =
      AllSecret-kept secrets u t rest
      ∙ SecretMade-kept srt _ _ u one
      ∙ (B.get_secret client srt.name).at s
