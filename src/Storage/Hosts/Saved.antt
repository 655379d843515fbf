-- ===== src/Storage/Hosts/Saved.antt =====
-- `save_host` of storage.rs against what `get_host` reads before and after it.
use mc_control_plane.Base.{
  ℕ, ◌<◌, String, Option, some, ◌≡◌, refl, arith, ok, ◌>>=◌, ok_or-eq-ok, map_err-eq-ok,
  bind-ok-elim, update_rows, count_rows,
}
use mc_control_plane.Base.Table.Rows.{find_row-updated}
use mc_control_plane.Protocol.{HostId}
use mc_control_plane.AppErrors.{AppError, external_error}
use mc_control_plane.Codec.{Codec, IsFaithful}
use mc_control_plane.Domain.{HostRecord}
use mc_control_plane.Storage.Rows.{
  HostRow, host_record_from_row, parse_timestamp, read_uuid, to_u32, to_u64,
}
use mc_control_plane.Storage.Tables.{Db, host_has_id, fetch_host_row, update_host_row}
use mc_control_plane.Storage.Commit.{committed-eq-ok}
use mc_control_plane.Storage.Invariant.Updates.{host_phase_from_db-host_phase_to_db}
use mc_control_plane.Storage.Invariant.Consistent.{IsConsistent}
use mc_control_plane.Storage.Claims.Reading.{parse_timestamps-lem, read_conditions-lem, to_u32-lem}
use mc_control_plane.Storage.Hosts.{get_host, host_columns, save_host}

-- The record that is read back.
abbrev pub with_progress : HostRecord → HostRecord → HostRecord
with_progress saved found = record found {
  resource = record (found.resource) { status = saved.resource.status };
  retry = saved.retry;
}

module _ (c : Codec) where
  open c use {uuid_to_string, timestamp_to_string, conditions_to_json}

  -- What the columns that `save_host` leaves are read as.
  record Reads (row : HostRow c) (found : HostRecord) : Type 0 where
    id : read_uuid c row.id ≡ ok found.resource.id
    claim_id : read_uuid c row.claim_id ≡ ok found.resource.claim_id
    created_at : parse_timestamp c row.created_at ≡ ok found.resource.created_at
    vcpus : to_u32 row.vcpus "vcpus" ≡ ok found.resource.allocatable_resources.vcpus
    memory :
        to_u64 row.memory_bytes "memory_bytes"
        ≡ ok found.resource.allocatable_resources.memory_bytes
    storage :
        to_u64 row.storage_bytes "storage_bytes"
        ≡ ok found.resource.allocatable_resources.storage_bytes
    plan : row.provider_plan_id ≡ found.provider_plan_id

  host_record_from_row-Reads :
      (row : HostRow c) (found : HostRecord)
      → host_record_from_row c row ≡ ok found
      → Reads row found
  unfolding host_record_from_row
  host_record_from_row-Reads row found = bind-ok-elim _ _ λ id id_read.
      bind-ok-elim _ _ λ claim claim_read. bind-ok-elim _ _ λ created created_read.
        bind-ok-elim _ _ λ vcpus vcpus_read. bind-ok-elim _ _ λ memory memory_read.
          bind-ok-elim _ _ λ storage storage_read. bind-ok-elim _ _ λ phase phase_read.
            bind-ok-elim _ _ λ observed observed_read.
              bind-ok-elim _ _ λ conditions conditions_read.
                bind-ok-elim _ _ λ attempt attempt_read last. record {
                  id = cc (id_read, last);
                  claim_id = cc (claim_read, last);
                  created_at = cc (created_read, last);
                  vcpus = cc (vcpus_read, last);
                  memory = cc (memory_read, last);
                  storage = cc (storage_read, last);
                  plan = cc last;
                }

  host_columns-read :
      IsFaithful c
      → (saved found : HostRecord) (row : HostRow c) (json : c.Json)
      → conditions_to_json saved.resource.status.conditions ≡ ok json
      → saved.retry.attempt < 4294967296
      → host_record_from_row c row ≡ ok found
      → host_record_from_row c (host_columns c saved json row) ≡ ok (with_progress saved found)
  unfolding host_record_from_row ◌>>=◌ host_columns
  host_columns-read f saved found row json written small e =
      let reads = host_record_from_row-Reads row found e in
      rw (
        reads.id,
        reads.claim_id,
        reads.created_at,
        reads.vcpus,
        reads.memory,
        reads.storage,
        host_phase_from_db-host_phase_to_db saved.resource.status.phase,
        parse_timestamps-lem c f saved.resource.status.observed_at,
        read_conditions-lem c f saved.resource.status.conditions json written,
        to_u32-lem c saved.retry.attempt "retry_attempt" small,
        reads.plan,
      )

  -- The row that `get_host` reads.
  get_host-eq-ok :
      (id : HostId) (db db' : Db c) (found : HostRecord)
      → get_host c id db ≡ (ok found, db')
      → (row : HostRow c) × (fetch_host_row (uuid_to_string id) db ≡ some row)
        × (host_record_from_row c row ≡ ok found)
  unfolding get_host
  get_host-eq-ok id db db' found e =
      bind-ok-elim _ _
        (λ row fetched. bind-ok-elim _ _ λ read parsed last. (
          row,
          ok_or-eq-ok (fetch_host_row (uuid_to_string id) db) _ fetched,
          cc (map_err-eq-ok AppError.internal _ parsed, last),
        ))
        (committed-eq-ok db db' _ found e)

  -- What the answer of `save_host` tells.
  record Saving (saved : HostRecord) (db db' : Db c) : Type 0 where
    json : c.Json
    written : conditions_to_json saved.resource.status.conditions ≡ ok json
    affected : 0 < count_rows (host_has_id (uuid_to_string saved.resource.id)) db.hosts
    updated :
        db'.hosts
        ≡ update_rows
            (host_has_id (uuid_to_string saved.resource.id))
            (host_columns c saved json)
            db.hosts

  update_host_row-eq-ok :
      (id : String) (resource : Option String) (f : HostRow c → HostRow c) (db : Db c)
      (r : ℕ × Db c)
      → update_host_row id resource f db ≡ ok r
      → (r.0 ≡ count_rows (host_has_id id) db.hosts)
        × (r.1.hosts ≡ update_rows (host_has_id id) f db.hosts)
  unfolding update_host_row
  update_host_row-eq-ok id resource f db r e = ground arith

  save_host-eq-ok :
      (saved : HostRecord) (db db' : Db c)
      → save_host c saved db ≡ (ok tt, db')
      → Saving saved db db'
  unfolding save_host
  save_host-eq-ok saved db db' e =
      bind-ok-elim _ _
        (λ json written. bind-ok-elim _ _ λ r done last.
          let (count, rows) =
            update_host_row-eq-ok _ _ _ db r (map_err-eq-ok AppError.internal _ done) in
          record {
            json = json;
            written = map_err-eq-ok external_error _ written;
            affected = ground (arith, count, last);
            updated = ground (arith, rows, last);
          })
        (committed-eq-ok db db' _ tt e)

  host_columns-id :
      (saved : HostRecord) (json : c.Json) (row : HostRow c)
      → (host_columns c saved json row).id ≡ row.id
  unfolding host_columns
  host_columns-id saved json row = refl

  -- With texts that are read back, in a consistent database: after a Host is saved, `get_host` reads
  -- the Host as it was before, but for its status and its retry state, which are the saved record's.
  pub save_host-get_host :
      IsFaithful c
      → (saved found : HostRecord) (db db' : Db c) → IsConsistent db
      → get_host c saved.resource.id db ≡ (ok found, db)
      → saved.retry.attempt < 4294967296
      → save_host c saved db ≡ (ok tt, db')
      → get_host c saved.resource.id db' ≡ (ok (with_progress saved found), db')
  unfolding get_host fetch_host_row ◌>>=◌
  save_host-get_host f saved found db db' v e small stored =
      let (row, fetched, parsed) = get_host-eq-ok saved.resource.id db db found e in
      let s = save_host-eq-ok saved db db' stored in
      rw (
        s.updated,
        find_row-updated (λ (r : HostRow c). r.id) (uuid_to_string saved.resource.id)
            (host_has_id (uuid_to_string saved.resource.id)) (host_columns c saved s.json) db.hosts
            row v.host_ids (λ r h. h) (host_columns-id saved s.json) s.affected fetched,
        host_columns-read f saved found row s.json s.written small parsed,
      )
