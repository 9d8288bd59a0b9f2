-- ===== src/Cid.antt =====
-- actions/util.go: the ids that the director is given, and their parts. `cpi.VMCID` and
-- `cpi.DiskCID` are both `string`.
pub mod Laws
use Prim.Native.Char.{Char, code}
use kubernetes_cpi.Base.{String, ◌<>◌, List, [], ◌∷◌, nat_eq, if◌then◌else◌}
use kubernetes_cpi.Exec.{Outcome, returns, panics, Result, ok, err}

abbrev prepend : Char → List String → List String
prepend c [] = []
prepend c (part ∷ parts) = String.◌∷◌ c part ∷ parts

-- strings.SplitN(s, ":", 2)
unfoldable pub split_n : String → List String
split_n String.[] = "" ∷ []
split_n (String.◌∷◌ c s) = if nat_eq (code c) b':' then "" ∷ s ∷ [] else prepend c (split_n s)

-- return parts[0], parts[1]
abbrev pub both_parts : List String → Outcome (String × String)
both_parts (a ∷ b ∷ rest) = returns (a, b)
both_parts _ = panics "index out of range"

unfoldable pub new_vmcid : String → String → String
new_vmcid context agent_id = context <> ":" <> agent_id

unfoldable pub parse_vmcid : String → Outcome (String × String)
parse_vmcid vmcid = both_parts (split_n vmcid)

unfoldable pub new_disk_cid : String → String → String
new_disk_cid context disk_id = context <> ":" <> disk_id

unfoldable pub parse_disk_cid : String → Outcome (String × String)
parse_disk_cid disk_cid = both_parts (split_n disk_cid)

-- An error of the generator is dropped: `return "", nil`.
unfoldable pub create_guid : Result String → Result String
create_guid (ok guid) = ok guid
create_guid (err e) = ok ""
