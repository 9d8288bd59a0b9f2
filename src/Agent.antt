-- ===== src/Agent.antt =====
-- agent/settings.go: the settings that the agent in a VM reads.
use kubernetes_cpi.Base.{String, Bool, Option, List, Dict}

pub record Disks : Type 0 where
  pub persistent : Option (Dict String)

pub record Network : Type 0 where
  pub network_type : String
  pub ip : String
  pub netmask : String
  pub gateway : String
  pub default : List String
  pub dns : List String
  pub preconfigured : Bool

pub record Vm : Type 0 where
  pub name : String

-- `blobstore` and `env` are JSON values that are carried along, as text.
pub record Settings : Type 0 where
  pub agent_id : String
  pub disks : Disks
  pub networks : Option (Dict Network)
  pub message_bus : String
  pub ntp_servers : List String
  pub vm : Vm
  pub blobstore : String
  pub env : String
