-- ===== src/Storage/Invariant/Updates.antt =====
-- The new column values of the UPDATE statements of storage.rs meet the CHECK clauses of
-- crates/control-plane/migrations/control-plane/0001_initial.sql.
use mc_control_plane.Base.{ℕ, ℤ, pos, String, true, ◌≡◌, refl, arith, ok, leb_ℤ}
use mc_control_plane.Codec.{Codec}
use mc_control_plane.Protocol.{HostPhase}
use mc_control_plane.Domain.{HostRecord}
use mc_control_plane.Storage.Rows.{ClaimRow, to_i64, host_phase_to_db, host_phase_from_db}
use mc_control_plane.Storage.Tables.{claim_checks, host_checks}
use mc_control_plane.Storage.Hosts.{host_columns}
use mc_control_plane.Storage.Invariant.Interface.{IsClaimUpdate, IsHostUpdate}

to_i64-pos : (n : ℕ) (field : String) (i : ℤ) → to_i64 n field ≡ ok i → leb_ℤ (pos 0) i ≡ true
unfolding to_i64
to_i64-pos n field i e = ground arith

-- A phase that is written is read back.
pub host_phase_from_db-host_phase_to_db :
    (p : HostPhase) → host_phase_from_db (host_phase_to_db p) ≡ ok p
unfolding host_phase_from_db host_phase_to_db
host_phase_from_db-host_phase_to_db HostPhase.pending = refl
host_phase_from_db-host_phase_to_db HostPhase.provisioning = refl
host_phase_from_db-host_phase_to_db HostPhase.ready = refl
host_phase_from_db-host_phase_to_db HostPhase.deleting = refl
host_phase_from_db-host_phase_to_db HostPhase.failed = refl

module _ {c : Codec} where
  -- An update of the status columns only, with the stored generation `i` and the attempt `n`.
  pub record IsStatusUpdate (i : ℤ) (n : ℕ) (f : ClaimRow c → ClaimRow c) : Type 0 where
    pub same_id : (r : ClaimRow c) → (f r).id ≡ r.id
    pub same_generation : (r : ClaimRow c) → (f r).generation ≡ r.generation
    pub same_vcpus : (r : ClaimRow c) → (f r).vcpus ≡ r.vcpus
    pub same_memory : (r : ClaimRow c) → (f r).memory_bytes ≡ r.memory_bytes
    pub same_storage : (r : ClaimRow c) → (f r).storage_bytes ≡ r.storage_bytes
    pub observed : (r : ClaimRow c) → (f r).observed_generation ≡ i
    pub attempted : (r : ClaimRow c) → (f r).retry_attempt ≡ pos n

  pub IsStatusUpdate-IsClaimUpdate :
      (f : ClaimRow c → ClaimRow c) (generation n : ℕ) (field : String) (i : ℤ)
      → to_i64 generation field ≡ ok i
      → IsStatusUpdate i n f
      → IsClaimUpdate f
  unfolding claim_checks
  IsStatusUpdate-IsClaimUpdate f generation n field i e u = record {
    same_id = u.same_id;
    checked = λ r h. ground (
      arith,
      u.same_generation r,
      u.same_vcpus r,
      u.same_memory r,
      u.same_storage r,
      u.observed r,
      u.attempted r,
      to_i64-pos generation field i e,
    );
  }

  pub host_columns-IsHostUpdate :
      (saved : HostRecord) (json : c.Json)
      → IsHostUpdate saved.resource.status.provider_resource_id (host_columns c saved json)
  unfolding host_columns host_checks
  host_columns-IsHostUpdate saved json = record {
    same_id = λ h. refl;
    same_claim = λ h. refl;
    same_assignment = λ h. refl;
    recorded = λ h. refl;
    checked = λ h e. ground arith;
    known = λ h. (
      saved.resource.status.phase,
      host_phase_from_db-host_phase_to_db saved.resource.status.phase,
    );
  }
