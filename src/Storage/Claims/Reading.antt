-- ===== src/Storage/Claims/Reading.antt =====
-- `claim_record_from_row` of storage.rs on a row whose status columns were written anew.
use mathlib.Core.Option
use mc_control_plane.Base.{
  ℕ, ◌<◌, pos, String, Option, none, some, List, ◌≡◌, refl, arith, ok, ◌>>=◌, traverse_option,
  bind-ok-elim,
}
use mc_control_plane.Protocol.{Timestamp, Condition}
use mc_control_plane.Codec.{Codec, IsFaithful}
use mc_control_plane.Domain.{HostClaimRecord, RetryState}
use mc_control_plane.Storage.Rows.{
  ClaimRow, JoinedRow, to_u64, to_u32, parse_timestamp, claim_record_from_row, read_uuid,
  read_conditions,
}

module _ (c : Codec) where
  open c use {uuid_to_string, timestamp_to_string, conditions_to_json}

  pub read_uuid-lem : IsFaithful c → (u : ℕ) → read_uuid c (uuid_to_string u) ≡ ok u
  read_uuid-lem f u = rw (f.uuid_roundtrip u)

  pub parse_timestamp-lem :
      IsFaithful c → (t : ℕ) → parse_timestamp c (timestamp_to_string t) ≡ ok t
  unfolding parse_timestamp
  parse_timestamp-lem f t = rw (f.timestamp_roundtrip t)

  pub parse_timestamps-lem :
      IsFaithful c
      → (t : Option ℕ)
      → traverse_option (parse_timestamp c) (Option.map timestamp_to_string t) ≡ ok t
  unfolding ◌>>=◌
  parse_timestamps-lem f none = refl
  parse_timestamps-lem f (some t) = rw (parse_timestamp-lem f t)

  pub read_conditions-lem :
      IsFaithful c
      → (cs : List Condition) (j : c.Json) → conditions_to_json cs ≡ ok j
      → read_conditions c j ≡ ok cs
  read_conditions-lem f cs j e = rw (f.json_roundtrip cs j e)

  pub to_u32-lem : (n : ℕ) (field : String) → n < 4294967296 → to_u32 (pos n) field ≡ ok n
  unfolding to_u32
  to_u32-lem n field h = ground arith

  -- The columns that an UPDATE of host_claims may set.
  abbrev pub status_columns : Option Timestamp → ℕ → c.Json → RetryState → ClaimRow c → ClaimRow c
  status_columns deleted generation json retry row = record row {
    deletion_timestamp = Option.map timestamp_to_string deleted;
    observed_generation = pos generation;
    conditions_json = json;
    retry_attempt = pos retry.attempt;
    next_reconcile_at_unix_ms = retry.next_reconcile_at_unix_ms;
    last_error_kind = retry.last_error_kind;
    last_error_message = retry.last_error_message;
  }

  -- The record that they are read as.
  abbrev pub with_status :
      Option Timestamp → ℕ → List Condition → RetryState → HostClaimRecord → HostClaimRecord
  with_status deleted generation conditions retry found = record {
    resource = record (found.resource) {
      deletion_timestamp = deleted;
      status = record (found.resource.status) {
        observed_generation = generation;
        conditions = conditions;
      };
    };
    retry = retry;
  }

  -- What each column is read as.
  pub record Reads (row : JoinedRow c) (found : HostClaimRecord) : Type 0 where
    pub id : read_uuid c row.claim.id ≡ ok found.resource.id
    pub host_id : traverse_option (read_uuid c) row.host_id ≡ ok found.resource.status.host_id
    pub conditions :
        read_conditions c row.claim.conditions_json ≡ ok found.resource.status.conditions
    pub generation : to_u64 row.claim.generation "generation" ≡ ok found.resource.generation
    pub created_at : parse_timestamp c row.claim.created_at ≡ ok found.resource.created_at
    pub deleted :
        traverse_option (parse_timestamp c) row.claim.deletion_timestamp
        ≡ ok found.resource.deletion_timestamp
    pub vcpus : to_u32 row.claim.vcpus "vcpus" ≡ ok found.resource.spec.resources.vcpus
    pub memory :
        to_u64 row.claim.memory_bytes "memory_bytes" ≡ ok found.resource.spec.resources.memory_bytes
    pub storage :
        to_u64 row.claim.storage_bytes "storage_bytes"
        ≡ ok found.resource.spec.resources.storage_bytes

  pub claim_record_from_row-Reads :
      (row : JoinedRow c) (found : HostClaimRecord)
      → claim_record_from_row c row ≡ ok found
      → Reads row found
  unfolding claim_record_from_row
  claim_record_from_row-Reads row found = bind-ok-elim _ _ λ id id_read.
      bind-ok-elim _ _ λ host host_read. bind-ok-elim _ _ λ conditions conditions_read.
        bind-ok-elim _ _ λ generation generation_read. bind-ok-elim _ _ λ created created_read.
          bind-ok-elim _ _ λ deleted deleted_read. bind-ok-elim _ _ λ vcpus vcpus_read.
            bind-ok-elim _ _ λ memory memory_read. bind-ok-elim _ _ λ storage storage_read.
              bind-ok-elim _ _ λ observed observed_read.
                bind-ok-elim _ _ λ attempt attempt_read last. record {
                  id = cc (id_read, last);
                  host_id = cc (host_read, last);
                  conditions = cc (conditions_read, last);
                  generation = cc (generation_read, last);
                  created_at = cc (created_read, last);
                  deleted = cc (deleted_read, last);
                  vcpus = cc (vcpus_read, last);
                  memory = cc (memory_read, last);
                  storage = cc (storage_read, last);
                }

  pub claim_record_from_row-status :
      IsFaithful c
      → (row : JoinedRow c) (found : HostClaimRecord) (deleted : Option Timestamp) (generation : ℕ)
        (conditions : List Condition) (json : c.Json) (retry : RetryState)
      → conditions_to_json conditions ≡ ok json
      → retry.attempt < 4294967296
      → claim_record_from_row c row ≡ ok found
      → claim_record_from_row c
          (record row { claim = status_columns deleted generation json retry row.claim })
        ≡ ok (with_status deleted generation conditions retry found)
  unfolding claim_record_from_row ◌>>=◌ to_u64
  claim_record_from_row-status f row found deleted generation conditions json retry written small
        e =
      let reads = claim_record_from_row-Reads row found e in
      rw (
        reads.id,
        reads.host_id,
        read_conditions-lem f conditions json written,
        reads.generation,
        reads.created_at,
        parse_timestamps-lem f deleted,
        reads.vcpus,
        reads.memory,
        reads.storage,
        to_u32-lem retry.attempt "retry_attempt" small,
      )
