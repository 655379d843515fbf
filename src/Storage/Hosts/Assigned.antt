-- ===== src/Storage/Hosts/Assigned.antt =====
-- What `ensure_host` of storage.rs promises when it answers a Host.
use mc_control_plane.Base.{String, some, ◌≡◌, ok}
use mc_control_plane.Protocol.{HostClaimId, HostResources}
use mc_control_plane.Codec.{Codec}
use mc_control_plane.Domain.{HostRecord}
use mc_control_plane.Storage.Rows.{HostRow, host_record_from_row}
use mc_control_plane.Storage.Tables.{Db, fetch_host_for_claim_row}

module _ (c : Codec) where
  open c use {uuid_to_string}

  -- The Host that a part of `ensure_host` answers is the stored one, and meets the request.
  record Assigned (id : HostClaimId) (plan : String) (resources : HostResources) (host : HostRecord)
      (db : Db c) : Type 0 where
    row : HostRow c
    stored : fetch_host_for_claim_row (uuid_to_string id) db ≡ some row
    read : host_record_from_row c row ≡ ok host
    meets : (host.provider_plan_id ≡ plan) × (host.resource.allocatable_resources ≡ resources)
