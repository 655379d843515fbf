-- ===== src/Provider/Fake/Plans/Cheapest.antt =====
-- `select_plan` of fake.rs: the plan that it selects fits, and none that fits is cheaper.
use mc_control_plane.Base.{
  String, ℕ, ◌≤◌, ◌<◌, ℤ, pos, negsuc, ◌≤ℤ◌, eq_of_parts, Bool, true, false, Option, some, List,
  ◌≡◌, refl, sym, subst, ◌⊎◌, inl, inr, arith, Result, ok, err, filter_rows, sort_rows, ltb,
  Bool-cases,
}
use mc_control_plane.Base.Table.Least.{IsRow, IsRow-filter, IsLeast-row}
use mc_control_plane.Protocol.{HostResources}
use mc_control_plane.Provider.{Plan, ProviderError}
use mc_control_plane.Provider.Fake.Tables.{PlanRow, FakeDb}
use mc_control_plane.Provider.Fake.Plans.{
  requirement_to_i64, plan_fits, plan_before, by_column, cheapest_row, plan_from_row, select_plan,
}

abbrev pub price : PlanRow → ℤ
price row = row.hourly_price_micros

by_column-le : (a b : ℤ) (later : Bool) → by_column a b later ≡ true → a ≤ℤ b
by_column-le a b later h = ground arith

by_column-ge : (a b : ℤ) (later : Bool) → by_column a b later ≡ false → b ≤ℤ a
by_column-ge a b later h = ground arith

plan_before-le : (a b : PlanRow) → plan_before a b ≡ true → price a ≤ℤ price b
unfolding plan_before
plan_before-le a b h = by_column-le (price a) (price b) _ h

plan_before-ge : (a b : PlanRow) → plan_before a b ≡ false → price b ≤ℤ price a
unfolding plan_before
plan_before-ge a b h = by_column-ge (price a) (price b) _ h

pub cheapest_row_lem :
    (vcpus memory storage : ℤ) (plans : List PlanRow) (s : PlanRow)
    → IsRow s plans
    → plan_fits vcpus memory storage s ≡ true
    → (r : PlanRow) × (cheapest_row vcpus memory storage plans ≡ some r)
      × IsRow r plans
      × (plan_fits vcpus memory storage r ≡ true)
      × (price r ≤ℤ price s)
unfolding cheapest_row
cheapest_row_lem vcpus memory storage plans s there fits =
    let fit = (IsRow-filter (plan_fits vcpus memory storage) plans s).1 there fits in
    let (r, l) =
      IsLeast-row plan_before price plan_before-le plan_before-ge
        (filter_rows (plan_fits vcpus memory storage) plans) s fit in
    let (row, ok_row) = (IsRow-filter (plan_fits vcpus memory storage) plans r).0 l.row in
    (r, l.first, row, ok_row, l.least s fit)

in_range : (n : ℕ) (m : String) → n ≤ 9223372036854775807 → requirement_to_i64 n m ≡ ok (pos n)
unfolding requirement_to_i64
in_range n m h = ground arith

selected :
    (requirements : HostResources) (db : FakeDb) (r : PlanRow)
    → requirements.memory_bytes ≤ 9223372036854775807
    → requirements.storage_bytes ≤ 9223372036854775807
    → cheapest_row
        (pos requirements.vcpus)
        (pos requirements.memory_bytes)
        (pos requirements.storage_bytes)
        db.plans
      ≡ some r
    → select_plan requirements db ≡ plan_from_row r db
unfolding select_plan sort_rows filter_rows
selected requirements db r memory storage first =
    rw
      (
        in_range requirements.memory_bytes "memory requirement exceeds SQLite range" memory,
        in_range requirements.storage_bytes "storage requirement exceeds SQLite range" storage,
      )
      (rw first)

-- An enabled plan that offers what is required.
pub record IsEnough (requirements : HostResources) (row : PlanRow) : Type 0 where
  pub enabled : row.enabled ≡ pos 1
  pub vcpus : pos requirements.vcpus ≤ℤ row.vcpus
  pub memory : pos requirements.memory_bytes ≤ℤ row.memory_bytes
  pub storage : pos requirements.storage_bytes ≤ℤ row.storage_bytes

-- A plan with the columns of a row, each in the range of its type.
pub record IsPlanOf (row : PlanRow) (plan : Plan) : Type 0 where
  pub id : plan.id ≡ row.id
  pub vcpus : pos plan.resources.vcpus ≡ row.vcpus
  pub memory : pos plan.resources.memory_bytes ≡ row.memory_bytes
  pub storage : pos plan.resources.storage_bytes ≡ row.storage_bytes
  pub in_u32 : plan.resources.vcpus < 4294967296

plan_fits_complete :
    (requirements : HostResources) (row : PlanRow)
    → IsEnough requirements row
    → plan_fits
        (pos requirements.vcpus)
        (pos requirements.memory_bytes)
        (pos requirements.storage_bytes)
        row
      ≡ true
unfolding plan_fits
plan_fits_complete requirements row h =
    rw (h.enabled) (ground (arith, h.vcpus, h.memory, h.storage))

plan_fits_sound :
    (requirements : HostResources) (row : PlanRow)
    → plan_fits
        (pos requirements.vcpus)
        (pos requirements.memory_bytes)
        (pos requirements.storage_bytes)
        row
      ≡ true
    → IsEnough requirements row
unfolding plan_fits
plan_fits_sound requirements row h = record {
  enabled = eq_of_parts row.enabled (pos 1) (ground arith);
  vcpus = ground arith;
  memory = ground arith;
  storage = ground arith;
}

-- Only a column of too many vCPUs is not answered as a plan.
abbrev pub IsAnswer : PlanRow → FakeDb → Result ProviderError (Option Plan) × FakeDb → Type 0
IsAnswer row db answer =
    ((plan : Plan) × (answer ≡ (ok (some plan), db)) × IsPlanOf row plan)
    ⊎ ((pos 4294967296 ≤ℤ row.vcpus)
        × (message : String) × (answer ≡ (err (ProviderError.transient message), db)))

column : (n : ℕ) (z : ℤ) → pos n ≤ℤ z → (k : ℕ) × (z ≡ pos k)
column n (pos k) h = (k, refl)
column n (negsuc k) h = absurd (omega (arith, h))

plan_from_row-IsAnswer :
    (requirements : HostResources) (row : PlanRow) (db : FakeDb)
    → IsEnough requirements row
    → IsAnswer row db (plan_from_row row db)
unfolding plan_from_row
plan_from_row-IsAnswer requirements row db h =
    let (v, vcpus) = column _ row.vcpus (h.vcpus) in
    let (m, memory) = column _ row.memory_bytes (h.memory) in
    let (s, storage) = column _ row.storage_bytes (h.storage) in
    elim (Bool-cases (ltb v 4294967296)) [
      | inl small ↦ inl (
        record {
          id = row.id;
          resources = record { vcpus = v; memory_bytes = m; storage_bytes = s };
        },
        ground (arith, vcpus, memory, storage, small),
        record {
          id = refl;
          vcpus = sym vcpus;
          memory = sym memory;
          storage = sym storage;
          in_u32 = ground arith;
        },
      )
      | inr large ↦ inr (
        rw vcpus (ground arith),
        "out of range integral type conversion attempted",
        rw (vcpus, memory, storage) (ground (arith, large)),
      )
    ]

-- If an enabled plan of the catalog offers what is required, and the requirements are in the range of
-- i64, then some enabled row that offers it too, and is not dearer, is the one that `select_plan`
-- answers: as the plan with just that row's columns or, if its vCPUs are out of the range of u32, as
-- a transient error. The provider stays as it is.
pub select_plan_lem :
    (requirements : HostResources) (db : FakeDb) (s : PlanRow)
    → requirements.memory_bytes ≤ 9223372036854775807
    → requirements.storage_bytes ≤ 9223372036854775807
    → IsRow s db.plans
    → IsEnough requirements s
    → (r : PlanRow) × IsRow r db.plans
      × IsEnough requirements r
      × (price r ≤ℤ price s)
      × IsAnswer r db (select_plan requirements db)
select_plan_lem requirements db s memory storage there enough =
    let (r, first, row, fit, cheap) =
      cheapest_row_lem (pos requirements.vcpus) (pos requirements.memory_bytes)
        (pos requirements.storage_bytes) db.plans s there
        (plan_fits_complete requirements s enough) in
    let offers = plan_fits_sound requirements r fit in
    (
      r,
      row,
      offers,
      cheap,
      subst (IsAnswer r db) (sym (selected requirements db r memory storage first))
          (plan_from_row-IsAnswer requirements r db offers),
    )
