-- ===== src/Storage/Invariant/Promises.antt =====
-- What the row that `create_claim` of storage.rs inserts is.
use mc_control_plane.Base.{◌≡◌, arith, ok, ◌>>=◌}
use mc_control_plane.Protocol.{HostClaimId, HostClaimSpec, Timestamp}
use mc_control_plane.Codec.{Codec}
use mc_control_plane.Domain.{initial_claim}
use mc_control_plane.Storage.Rows.{ClaimRow, to_i64}
use mc_control_plane.Storage.Claims.{new_claim_row}
use mc_control_plane.Storage.Invariant.Interface.{IsNewClaim}

module _ (c : Codec) where
  open c use {uuid_to_string}

  pub new_claim_row-IsNewClaim :
      (id : HostClaimId) (spec : HostClaimSpec) (now : Timestamp) (row : ClaimRow c)
      → new_claim_row c (initial_claim id spec now) ≡ ok row
      → IsNewClaim row
  unfolding new_claim_row initial_claim ◌>>=◌ to_i64
  new_claim_row-IsNewClaim id spec now row e = record { written = (id, ground (arith, e)) }
