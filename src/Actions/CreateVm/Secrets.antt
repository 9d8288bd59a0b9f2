-- ===== src/Actions/CreateVm/Secrets.antt =====
-- actions/create_vm.go: `createSecret`.
use kubernetes_cpi.Base.{String, ◌<>◌, List, [], ◌∷◌, Dict, insert, dict_of, ◌==◌, if◌then◌else◌}
use kubernetes_cpi.Exec.{Result, ok, err, Exec, errorf, pure, fail, call, wrapping, ◌>>=◌, ◌>>◌}
use kubernetes_cpi.Kube.Objects
use kubernetes_cpi.Kube.World.{World, Client}
use kubernetes_cpi.Actions.CreateVm.Props
use kubernetes_cpi.Actions.CreateVm.Services.{agent_meta}

unfoldable pub kube_secret_type : String → String
kube_secret_type t =
    if t == "DockerCfg"
    then "kubernetes.io/dockercfg"
    else if t == "ServiceAccountToken"
    then "kubernetes.io/service-account-token"
    else if t == "TLS"
    then "kubernetes.io/tls"
    else "Opaque"

unfoldable pub kube_secret : String → String → Props.Secret → Dict String → Objects.Secret
unfolding kube_secret_type
kube_secret ns agent_id srt contents = record {
  meta = agent_meta srt.name ns agent_id srt.annotations;
  contents = contents;
  string_data = srt.string_data;
  secret_type = kube_secret_type srt.secret_type;
}

module _ (W : World) where
  -- One value: a ".dockercfg" is the content of the file that it names.
  abbrev pub secret_value : String → String → Exec W.State String
  secret_value k v =
      if k == ".dockercfg"
      then wrapping ("Reading dockerfile " <> v) (call (W.read_file v))
      else pure v

  unfoldable pub read_contents : Dict String → Dict String → Exec W.State (Dict String)
  read_contents [] contents = pure contents
  read_contents ((k, v) ∷ entries) contents = do
    value ← secret_value k v
    read_contents entries (insert k value contents)

  abbrev pub secret_if_absent :
      Client → String → String → Props.Secret → Result Objects.Secret → Exec W.State (Unit {0})
  secret_if_absent client ns agent_id srt (ok found) =
      fail (errorf ("Secret name " <> srt.name <> " already exists.") [])
  secret_if_absent client ns agent_id srt (err e) = do
    contents ← read_contents (dict_of srt.contents) []
    wrapping "Creating secret by client"
        (call (W.secrets.create client (kube_secret ns agent_id srt contents)))
    pure tt

  -- One round of the loop.
  unfoldable pub create_one : Client → String → String → Props.Secret → Exec W.State (Unit {0})
  unfolding read_contents kube_secret
  create_one client ns agent_id srt s =
      let (r, s') = W.secrets.get client srt.name s in secret_if_absent client ns agent_id srt r s'

  unfoldable pub create_secret :
      Client → String → String → List Props.Secret → Exec W.State (Unit {0})
  unfolding create_one
  create_secret client ns agent_id [] = pure tt
  create_secret client ns agent_id (srt ∷ secrets) = do
    create_one client ns agent_id srt
    create_secret client ns agent_id secrets
