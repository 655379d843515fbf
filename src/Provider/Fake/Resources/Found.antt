-- ===== src/Provider/Fake/Resources/Found.antt =====
-- What `observe` of fake.rs finds, before `delete` and after it.
use mc_control_plane.Base.{
  ℕ, String, false, Option, none, some, ◌≡◌, ap, ◌∙◌, arith, Option-cases, inl, inr, ok, find_row,
  eq_iff,
}
use mc_control_plane.Base.Table.Rows.{find_row-fits}
use mc_control_plane.Base.Table.Keys.{find_row-delete_self}
use mc_control_plane.Protocol.{HostId, Uuid, Timestamp}
use mc_control_plane.Codec.{Codec, IsFaithful}
use mc_control_plane.Provider.{ProviderResource, ProviderObservation, DeleteOutcome}
use mc_control_plane.Provider.Fake.Tables.{FakeDb, consume_fault}
use mc_control_plane.Provider.Fake.Resources.{
  resource_has_host, resource_from_row, resource_by_host, observe, delete,
}

pub paired : {A B : Type 0} (p : A × B) (a : A) (b : B) → p.0 ≡ a → p.1 ≡ b → p ≡ (a, b)
paired (x, y) a b e h = cc (e, h)

-- Using up a fault leaves the resources.
pub consume_fault-resources :
    (operation : String) (db : FakeDb)
    → (consume_fault operation db).1.provider_resources ≡ db.provider_resources
unfolding consume_fault
consume_fault-resources operation db = ground arith

module _ (c : Codec) (new_uuid : ℕ → Uuid) (clock : ℕ → Timestamp) where
  open c use {uuid_to_string}

  -- Looking a resource up changes nothing.
  pub resource_by_host-same :
      (host_id : HostId) (db : FakeDb) → (resource_by_host c new_uuid clock host_id db).1 ≡ db
  unfolding resource_by_host resource_from_row
  resource_by_host-same host_id db =
      elim (Option-cases
        (find_row (resource_has_host c new_uuid clock host_id) db.provider_resources)) [
          | inl missing ↦ ground (arith, missing)
          | inr (row, found) ↦ ground (arith, found)
        ]

  pub resource_by_host-none :
      (host_id : HostId) (db : FakeDb)
      → (resource_by_host c new_uuid clock host_id db).0 ≡ ok none
      → find_row (resource_has_host c new_uuid clock host_id) db.provider_resources ≡ none
  unfolding resource_by_host resource_from_row
  resource_by_host-none host_id db e =
      elim (Option-cases
        (find_row (resource_has_host c new_uuid clock host_id) db.provider_resources)) [
          | inl missing ↦ missing
          | inr (row, found) ↦ absurd (ground (arith, found))
        ]

  -- What the lookup answers is the Host's, if texts are read back.
  pub resource_by_host-host :
      IsFaithful c
      → (host_id : HostId) (db : FakeDb) (r : ProviderResource)
      → (resource_by_host c new_uuid clock host_id db).0 ≡ ok (some r)
      → r.host_id ≡ host_id
  unfolding resource_by_host resource_from_row
  resource_by_host-host f host_id db r e =
      elim (Option-cases
        (find_row (resource_has_host c new_uuid clock host_id) db.provider_resources)) [
          | inl missing ↦ absurd (ground (arith, missing))
          | inr (row, found) ↦
              let mine = (eq_iff row.host_id (uuid_to_string host_id)).0 (
                find_row-fits (resource_has_host c new_uuid clock host_id) db.provider_resources row
                  found) in
              ground (arith, found, ap c.uuid_from_str mine ∙ f.uuid_roundtrip host_id)
        ]

  pub resource_by_host-again :
      (host_id : HostId) (db db' : FakeDb) (o : Option ProviderResource)
      → db' ≡ (resource_by_host c new_uuid clock host_id db).1
      → (resource_by_host c new_uuid clock host_id db).0 ≡ ok o
      → resource_by_host c new_uuid clock host_id db' ≡ (ok o, db')
  resource_by_host-again host_id db db' o same e =
      let unchanged = same ∙ resource_by_host-same host_id db in
      paired _ (ok o) db' (ap (λ d. (resource_by_host c new_uuid clock host_id d).0) unchanged ∙ e)
        (resource_by_host-same host_id db')

  -- `observe` with no fault left answers what the lookup finds.
  pub observe-found :
      (host_id : HostId) (db : FakeDb) (r : ProviderResource)
      → consume_fault "observe_transient_failure" db ≡ (ok false, db)
      → resource_by_host c new_uuid clock host_id db ≡ (ok (some r), db)
      → observe c new_uuid clock host_id db ≡ (ok (ProviderObservation.present r), db)
  unfolding observe
  observe-found host_id db r quiet e = ground (arith, quiet, e)

  observe-absent :
      (host_id : HostId) (db : FakeDb)
      → consume_fault "observe_transient_failure" db ≡ (ok false, db)
      → find_row (resource_has_host c new_uuid clock host_id) db.provider_resources ≡ none
      → observe c new_uuid clock host_id db ≡ (ok ProviderObservation.absent, db)
  unfolding observe resource_by_host
  observe-absent host_id db quiet e = ground (arith, quiet, e)

  -- After `delete` returns an outcome, whichever it is, `observe` with no fault of observation
  -- left for it finds no resource of the Host and changes nothing.
  pub observe-delete :
      (host_id : HostId) (db db' : FakeDb) (outcome : DeleteOutcome)
      → delete c new_uuid clock host_id db ≡ (ok outcome, db')
      → consume_fault "observe_transient_failure" db' ≡ (ok false, db')
      → observe c new_uuid clock host_id db' ≡ (ok ProviderObservation.absent, db')
  unfolding delete
  observe-delete host_id db db' outcome e quiet = observe-absent host_id db' quiet (
      ground (
        arith,
        find_row-delete_self (resource_has_host c new_uuid clock host_id)
            (consume_fault "delete_response_loss"
              (consume_fault "delete_transient_failure" db).1).1.provider_resources,
      ))
