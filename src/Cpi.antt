-- ===== src/Cpi.antt =====
-- cpi/types.go and cpi/remarshal.go, what the director sends, and cpi/errors.go.
use kubernetes_cpi.Base.{String, false, List, Dict}
use kubernetes_cpi.Exec.{Error, foreign, Result, ok}
use kubernetes_cpi.Agent

-- `cloud_properties` is carried as JSON text.
pub record Network : Type 0 where
  pub network_type : String
  pub ip : String
  pub netmask : String
  pub gateway : String
  pub dns : List String
  pub default : List String
  pub cloud_properties : String

abbrev pub Networks : Type 0
Networks = Dict Network

-- `Remarshal` of a network into the agent's: the fields with the same JSON names go over, and the
-- agent's other field keeps its zero value. A network that came as JSON can be written as JSON again
-- and read back, so that the two error paths of `Remarshal` are not among its results.
unfoldable pub remarshal : Network → Result Agent.Network
remarshal nw = ok (record {
  network_type = nw.network_type;
  ip = nw.ip;
  netmask = nw.netmask;
  gateway = nw.gateway;
  default = nw.default;
  dns = nw.dns;
  preconfigured = false;
})

-- The type of an error, for the director, and its text.
pub record CpiError : Type 0 where
  pub error_type : String
  pub text : String

abbrev pub not_supported_error : CpiError
not_supported_error = record { error_type = "Bosh::Clouds::NotSupported"; text = "Not supported" }

abbrev pub not_implemented_error : CpiError
not_implemented_error = record {
  error_type = "Bosh::Clouds::NotImplemented";
  text = "Not implemented";
}

abbrev pub disk_not_attached_error : CpiError
disk_not_attached_error = record {
  error_type = "Bosh::Clouds::DiskNotAttached";
  text = "Disk not attached";
}

-- As an `error`, it is known by its text.
abbrev pub as_error : CpiError → Error
as_error e = foreign e.text
