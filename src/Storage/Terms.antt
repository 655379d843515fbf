-- ===== src/Storage/Terms.antt =====
-- The columns of the tables of storage.rs that nothing but the owner of a claim, or the assignment of a
-- Host, decides.
use mc_control_plane.Base.{ℤ, String, Option}
use mc_control_plane.Codec.{Codec}
use mc_control_plane.Storage.Rows.{ClaimRow, HostRow}

-- What its owner decides of a claim.
pub record Promise : Type 0 where
  pub id : String
  pub generation : ℤ
  pub created_at : String
  pub deletion_timestamp : Option String
  pub vcpus : ℤ
  pub memory_bytes : ℤ
  pub storage_bytes : ℤ

-- What its assignment decides of a Host.
pub record Assignment : Type 0 where
  pub id : String
  pub claim_id : String
  pub created_at : String
  pub provider_plan_id : String
  pub vcpus : ℤ
  pub memory_bytes : ℤ
  pub storage_bytes : ℤ

module _ {c : Codec} where
  abbrev pub promise : ClaimRow c → Promise
  promise row = record {
    id = row.id;
    generation = row.generation;
    created_at = row.created_at;
    deletion_timestamp = row.deletion_timestamp;
    vcpus = row.vcpus;
    memory_bytes = row.memory_bytes;
    storage_bytes = row.storage_bytes;
  }

  abbrev pub assignment : HostRow c → Assignment
  assignment row = record {
    id = row.id;
    claim_id = row.claim_id;
    created_at = row.created_at;
    provider_plan_id = row.provider_plan_id;
    vcpus = row.vcpus;
    memory_bytes = row.memory_bytes;
    storage_bytes = row.storage_bytes;
  }
