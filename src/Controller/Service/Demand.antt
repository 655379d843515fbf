-- ===== src/Controller/Service/Demand.antt =====
-- The control plane as a whole keeps a claim, and the Host that is assigned to it, until somebody asks
-- for the deletion of the claim.
use mc_control_plane.Base.{none, some, ◌≡◌, refl, find_row}
use mc_control_plane.Base.Table.All.{All}
use mc_control_plane.Base.Table.Held.{found-Held, Held-found}
use mc_control_plane.Protocol.{HostClaimId}
use mc_control_plane.Codec.{Codec, IsFaithful}
use mc_control_plane.Storage.Rows.{ClaimRow, HostRow}
use mc_control_plane.Storage.Tables.{Db, claim_has_id, host_has_claim}
use mc_control_plane.Storage.Terms.{promise, assignment}
use mc_control_plane.Storage.Invariant.Interface.{IsInvariant}
use mc_control_plane.Storage.Invariant.Consistent.{IsConsistent}
use mc_control_plane.Storage.Invariant.Demand.{
  IsWritten, AllWritten-IsRowsInvariant, IsRowsInvariant-IsInvariant,
}
use mc_control_plane.Storage.Invariant.Standing.{
  Other, ClaimHeld-IsRowsInvariant, HostHeld-IsInvariant, Standing,
}
use mc_control_plane.Storage.Invariant.Listed.{
  Standing-IsDeletionGuard, BothStanding-IsDeletionGuard,
}
use mc_control_plane.Storage.Invariant.Guarded.{both-IsInvariant}
use mc_control_plane.Provider.{HostProvider}
use mc_control_plane.Rpc.{RpcContext, Shared}
use mc_control_plane.Controller.Service.{Reachable, Asks, Reachable-Inv}

module _ {c : Codec} where
  -- The claim is found, with all that its owner decides as in the given row.
  abbrev pub ClaimStands : HostClaimId → ClaimRow c → Db c → Type 0
  ClaimStands id row db =
      (row' : ClaimRow c) × (find_row (claim_has_id (c.uuid_to_string id)) db.host_claims
        ≡ some row')
      × (promise row' ≡ promise row)

  -- A Host of the claim is found, with all that its assignment decides as in the given row.
  abbrev pub HostStands : HostClaimId → HostRow c → Db c → Type 0
  HostStands id host db =
      (host' : HostRow c) × (find_row (host_has_claim (c.uuid_to_string id)) db.hosts ≡ some host')
      × (assignment host' ≡ assignment host)

module _ (c : Codec) (context : RpcContext) {P : Type 0} (provider : HostProvider P)
    (initial : Db c) (f : IsFaithful c) (consistent : IsConsistent initial)
    (written : All IsWritten initial.host_claims) (id : HostClaimId) (row : ClaimRow c)
    (there : find_row (claim_has_id (c.uuid_to_string id)) initial.host_claims ≡ some row)
    (live : row.deletion_timestamp ≡ none) where
  standing : Standing (c.uuid_to_string id) (promise row) initial
  standing = (written, found-Held _ _ _ _ initial.host_claims row consistent.claim_ids there refl)

  Standing-IsInvariant :
      IsInvariant (Other id) (λ (db : Db c). Standing (c.uuid_to_string id) (promise row) db)
  Standing-IsInvariant =
      both-IsInvariant (IsRowsInvariant-IsInvariant _ AllWritten-IsRowsInvariant)
        (IsRowsInvariant-IsInvariant _ (ClaimHeld-IsRowsInvariant f id (promise row)))

  -- With texts that are read back, from a consistent database whose claims have identifiers that were
  -- written as texts, whatever the provider answers and whatever is asked for, also during a round, but
  -- for the deletion of one claim that is there and that nobody asked to delete: that claim is there,
  -- with its identifier, generation, creation time and resources, and with no deletion requested.
  pub Reachable-ClaimStands :
      (s : Shared c) (p : P) (r : Reachable c context provider initial s p)
      → Asks (Other id) s p r
      → ClaimStands id row s.db
  Reachable-ClaimStands s p r asks =
      Held-found _ _ _ _ s.db.host_claims
        (Reachable-Inv c context provider Standing-IsInvariant
          (Standing-IsDeletionGuard f (c.uuid_to_string id) (promise row) live) initial standing s p
          r asks).1

  -- With texts that are read back, from a consistent database whose claims have identifiers that were
  -- written as texts, whatever the provider answers and whatever is asked for, also during a round, but
  -- for the deletion of one claim that is there with a Host and that nobody asked to delete: the claim
  -- keeps that Host, with its identifier, claim, creation time, plan and resources.
  pub Reachable-HostStands :
      (host : HostRow c)
      → find_row (host_has_claim (c.uuid_to_string id)) initial.hosts ≡ some host
      → (s : Shared c) (p : P) (r : Reachable c context provider initial s p)
      → Asks (Other id) s p r
      → HostStands id host s.db
  Reachable-HostStands host assigned s p r asks =
      Held-found _ _ _ _ s.db.hosts
        (Reachable-Inv c context provider
          (both-IsInvariant Standing-IsInvariant
            (HostHeld-IsInvariant (c.uuid_to_string id) (assignment host)))
          (BothStanding-IsDeletionGuard f (c.uuid_to_string id) (promise row) (assignment host)
            live)
          initial
          (standing, found-Held _ _ _ _ initial.hosts host consistent.one_host assigned refl) s p r
          asks).1
