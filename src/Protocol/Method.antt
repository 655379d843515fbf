-- ===== src/Protocol/Method.antt =====
-- The method names of crates/control-plane-protocol/src/rpc.rs (`method`).
use mc_control_plane.Base.{String}

abbrev pub system_info : String
system_info = "system.info"

abbrev pub host_claim_create : String
host_claim_create = "host.claim.create"

abbrev pub host_claim_get : String
host_claim_get = "host.claim.get"

abbrev pub host_claim_list : String
host_claim_list = "host.claim.list"

abbrev pub host_claim_delete : String
host_claim_delete = "host.claim.delete"

abbrev pub host_get : String
host_get = "host.get"

abbrev pub host_list : String
host_list = "host.list"
