-- ===== src/Provider/Fake/Tables.antt =====
-- The tables of crates/control-plane/migrations/fake-provider/0001_initial.sql, the calls of fake.rs as a state monad, and
-- the injected faults.
use mc_control_plane.Base.{
  ℕ, ◌-◌, ℤ, String, str_eq, none, some, Bool, true, false, ◌==◌, List, Result, ok, err,
  if◌then◌else◌, find_row, update_rows,
}
use mc_control_plane.Provider.{ProviderError, Call}

-- The tables of crates/control-plane/migrations/fake-provider/0001_initial.sql. `remaining` has a CHECK that it is 0 or
-- more.
pub record PlanRow : Type 0 where
  pub id : String
  pub vcpus : ℤ
  pub memory_bytes : ℤ
  pub storage_bytes : ℤ
  pub hourly_price_micros : ℤ
  pub enabled : ℤ

pub record ResourceRow : Type 0 where
  pub id : String
  pub host_id : String
  pub plan_id : String
  pub lifecycle : String
  pub created_at : String

pub record FaultRow : Type 0 where
  pub operation : String
  pub remaining : ℕ

pub record FakeDb : Type 0 where
  pub plans : List PlanRow
  pub provider_resources : List ResourceRow
  pub faults : List FaultRow
  pub readings : ℕ

infixl 5 ◌>>=◌
abbrev pub ◌>>=◌ : {A B : Type 0} → Call FakeDb A → (A → Call FakeDb B) → Call FakeDb B
◌>>=◌ m f db = let (r, db') = m db in elim r [ ok a ↦ f a db' | err e ↦ (err e, db') ]

abbrev pub pure : {A : Type 0} → A → Call FakeDb A
pure a db = (ok a, db)

abbrev pub raise : {A : Type 0} → ProviderError → Call FakeDb A
raise e db = (err e, db)

abbrev pub lift : {A : Type 0} → Result ProviderError A → Call FakeDb A
lift r db = (r, db)

abbrev fault_is : String → FaultRow → Bool
fault_is operation row = str_eq row.operation operation

-- One fault of the kind is used up, if any remain.
unfoldable pub consume_fault : String → Call FakeDb Bool
consume_fault operation db =
    let remaining : ℕ = elim (find_row (fault_is operation) db.faults) [
      | none ↦ 0
      | some row ↦ row.remaining
    ] in
    if remaining == 0 then (ok false, db) else (
      ok true,
      record db {
        faults =
            update_rows (fault_is operation)
              (λ (row : FaultRow). record row { remaining = row.remaining - 1 }) db.faults;
      },
    )
