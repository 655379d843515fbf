-- ===== src/Provider/Fake/Plans.antt =====
-- `select_plan` and `seed_catalog` of fake.rs.
pub mod Cheapest
use mc_control_plane.Base.{
  ℕ, ◌*◌, ◌^◌, ℤ, pos, negsuc, leb_ℤ, ltb, String, str_eq, str_le, Option, none, some, is_some,
  Bool, true, false, ◌&&◌, leb, List, [], ◌∷◌, ◌++◌, Result, ok, err, if◌then◌else◌, find_row,
  filter_rows, update_rows, sort_rows, limit_one,
}
use mc_control_plane.Protocol.{HostResources}
use mc_control_plane.Provider.{Plan, ProviderError, Call}
use mc_control_plane.Provider.Fake.Tables.{PlanRow, FakeDb, ◌>>=◌, pure, lift}

unfoldable pub requirement_to_i64 : ℕ → String → Result ProviderError ℤ
requirement_to_i64 value message =
    if leb value 9223372036854775807 then ok (pos value) else err (ProviderError.definitive message)

-- `u32::try_from` and `u64::try_from` of a column.
column_to_u32 : ℤ → Result ProviderError ℕ
column_to_u32 (pos n) =
    if ltb n 4294967296
    then ok n
    else err (ProviderError.transient "out of range integral type conversion attempted")
column_to_u32 (negsuc n) =
    err (ProviderError.transient "out of range integral type conversion attempted")

column_to_u64 : ℤ → Result ProviderError ℕ
column_to_u64 (pos n) = ok n
column_to_u64 (negsuc n) =
    err (ProviderError.transient "out of range integral type conversion attempted")

-- The WHERE clause of `select_plan`.
unfoldable pub plan_fits : ℤ → ℤ → ℤ → PlanRow → Bool
plan_fits vcpus memory storage row =
    leb_ℤ row.enabled (pos 1)
    && (leb_ℤ (pos 1) row.enabled
        && (leb_ℤ vcpus row.vcpus
            && (leb_ℤ memory row.memory_bytes && leb_ℤ storage row.storage_bytes)))

-- One column of an ORDER BY, with the columns after it.
abbrev pub by_column : ℤ → ℤ → Bool → Bool
by_column a b later = if leb_ℤ a b then (if leb_ℤ b a then later else true) else false

unfoldable pub plan_before : PlanRow → PlanRow → Bool
plan_before a b = by_column a.hourly_price_micros b.hourly_price_micros (
    by_column a.memory_bytes b.memory_bytes
      (by_column a.storage_bytes b.storage_bytes (by_column a.vcpus b.vcpus (str_le a.id b.id))))

-- The plan of a row.
unfoldable pub plan_from_row : PlanRow → Call FakeDb (Option Plan)
unfolding column_to_u32 column_to_u64
plan_from_row row = do
  vcpus ← lift (column_to_u32 row.vcpus)
  memory_bytes ← lift (column_to_u64 row.memory_bytes)
  storage_bytes ← lift (column_to_u64 row.storage_bytes)
  pure (
      some (record {
        id = row.id;
        resources = record {
          vcpus = vcpus;
          memory_bytes = memory_bytes;
          storage_bytes = storage_bytes;
        };
      }))

unfoldable pub cheapest_row : ℤ → ℤ → ℤ → List PlanRow → Option PlanRow
unfolding plan_fits plan_before
cheapest_row vcpus memory storage plans =
    limit_one (sort_rows plan_before (filter_rows (plan_fits vcpus memory storage) plans))

unfoldable pub select_plan : HostResources → Call FakeDb (Option Plan)
unfolding requirement_to_i64 cheapest_row plan_from_row
select_plan requirements = do
  memory ←
      lift (requirement_to_i64 requirements.memory_bytes "memory requirement exceeds SQLite range")
  storage ←
      lift
        (requirement_to_i64 requirements.storage_bytes "storage requirement exceeds SQLite range")
  row ← (λ db. (ok (cheapest_row (pos requirements.vcpus) memory storage db.plans), db))
  elim row [ none ↦ pure none | some r ↦ plan_from_row r ]

-- `seed_catalog`: the three plans, inserted or set back.
unfoldable pub catalog : List PlanRow
catalog =
    record {
      id = "fake-2c-4g-40g";
      vcpus = pos 2;
      memory_bytes = pos (4 * 2 ^ 30);
      storage_bytes = pos (40 * 2 ^ 30);
      hourly_price_micros = pos 10000;
      enabled = pos 1;
    }
    ∷ record {
      id = "fake-4c-8g-80g";
      vcpus = pos 4;
      memory_bytes = pos (8 * 2 ^ 30);
      storage_bytes = pos (80 * 2 ^ 30);
      hourly_price_micros = pos 20000;
      enabled = pos 1;
    }
    ∷ record {
      id = "fake-8c-16g-160g";
      vcpus = pos 8;
      memory_bytes = pos (16 * 2 ^ 30);
      storage_bytes = pos (160 * 2 ^ 30);
      hourly_price_micros = pos 40000;
      enabled = pos 1;
    }
    ∷ []

abbrev plan_is : String → PlanRow → Bool
plan_is id row = str_eq row.id id

unfoldable pub upsert_plan : PlanRow → List PlanRow → List PlanRow
upsert_plan plan plans =
    if is_some (find_row (plan_is plan.id) plans)
    then update_rows (plan_is plan.id) (λ _. plan) plans
    else plans ++ plan ∷ []

upsert_plans : List PlanRow → List PlanRow → List PlanRow
upsert_plans [] plans = plans
upsert_plans (p ∷ ps) plans = upsert_plans ps (upsert_plan p plans)

unfoldable pub seed_catalog : FakeDb → FakeDb
unfolding upsert_plans upsert_plan catalog
seed_catalog db = record db { plans = upsert_plans catalog db.plans }
