-- ===== src/Storage/Invariant/Resources.antt =====
-- No two Hosts have recorded one provider resource.
use mc_control_plane.Base.{
  String, str_eq, eq_iff, Option, none, some, Bool, false, List, [], ◌∷◌, ◌++◌, ◌≡◌, refl, subst,
  arith, find_row, update_rows, delete_rows, Bool-cases, inl, inr,
}
use mc_control_plane.Base.Table.Keys.{
  find_row-append, find_row-delete_none, find_row-update_none, Unique, update_rows-none,
}
use mc_control_plane.Codec.{Codec}
use mc_control_plane.Storage.Rows.{HostRow}
use mc_control_plane.Storage.Tables.{sql_is, host_has_id, resource_taken}

module _ {c : Codec} where
  -- Whether a row has recorded the given provider resource; nothing is shared by NULL.
  unfoldable pub shares : Option String → HostRow c → Bool
  shares none row = false
  shares (some r) row = sql_is row.provider_resource_id (some r)

  abbrev pub Unshared : List (HostRow c) → Type 0
  Unshared [] = Unit
  Unshared (h ∷ hs) = (find_row (shares h.provider_resource_id) hs ≡ none) × Unshared hs

  shares_null :
      (o : Option String) (row : HostRow c) → row.provider_resource_id ≡ none → shares o row ≡ false
  unfolding shares sql_is
  shares_null none row e = refl
  shares_null (some r) row e = rw e

  -- A Host whose own resource is not the one written does not share it.
  shares_written :
      (o written : Option String) (row : HostRow c)
      → row.provider_resource_id ≡ written
      → ((r : String) → written ≡ some r → sql_is o (some r) ≡ false)
      → shares o row ≡ false
  unfolding shares sql_is
  shares_written none written row e h = refl
  shares_written (some a) none row e h = rw e
  shares_written (some a) (some r) row e h = rw e (ground (arith, h r refl, eq_iff a r, eq_iff r a))

  untaken :
      (id : String) (written : Option String) (hs : List (HostRow c))
      → find_row (host_has_id id) hs ≡ none
      → find_row (resource_taken id written) hs ≡ none
      → find_row (shares written) hs ≡ none
  unfolding find_row shares
  untaken id none [] h t = refl
  untaken id (some r) [] h t = refl
  untaken id none (g ∷ hs) h t = untaken id none hs (ground arith) (ground arith)
  untaken id (some r) (g ∷ hs) h t = ground (arith, untaken id (some r) hs)

  pub Unshared-append :
      (hs : List (HostRow c)) (h : HostRow c)
      → h.provider_resource_id ≡ none
      → Unshared hs
      → Unshared (hs ++ h ∷ [])
  unfolding find_row shares sql_is
  Unshared-append [] h e u = (refl, tt)
  Unshared-append (g ∷ hs) h e u = (
    rw (
      find_row-append (shares g.provider_resource_id) hs h,
      u.0,
      shares_null g.provider_resource_id h e,
    ),
    Unshared-append hs h e u.1,
  )

  pub Unshared-delete :
      (p : HostRow c → Bool) (hs : List (HostRow c)) → Unshared hs → Unshared (delete_rows p hs)
  unfolding delete_rows
  Unshared-delete p [] u = tt
  Unshared-delete p (h ∷ hs) u =
      ground
        (arith, Unshared-delete p hs, find_row-delete_none (shares h.provider_resource_id) p hs)

  taken_head :
      (id : String) (written : Option String) (g : HostRow c) (hs : List (HostRow c))
      → str_eq g.id id ≡ false
      → find_row (resource_taken id written) (g ∷ hs) ≡ none
      → (r : String) → written ≡ some r
      → sql_is g.provider_resource_id (some r) ≡ false
  unfolding find_row
  taken_head id none g hs other t r e = cc
  taken_head id (some w) g hs other t r e = ground arith

  taken_tail :
      (id : String) (written : Option String) (g : HostRow c) (hs : List (HostRow c))
      → find_row (resource_taken id written) (g ∷ hs) ≡ none
      → find_row (resource_taken id written) hs ≡ none
  unfolding find_row
  taken_tail id written g hs t = ground arith

  -- One Host's resource is written, and no other Host has it.
  pub Unshared-update :
      (id : String) (written : Option String) (f : HostRow c → HostRow c) (hs : List (HostRow c))
      → ((h : HostRow c) → (f h).provider_resource_id ≡ written)
      → Unique (λ h. h.id) hs
      → find_row (resource_taken id written) hs ≡ none
      → Unshared hs
      → Unshared (update_rows (host_has_id id) f hs)
  unfolding update_rows
  Unshared-update id written f [] w k t u = tt
  Unshared-update id written f (g ∷ hs) w k t u = elim (Bool-cases (str_eq g.id id)) [
    | inl same ↦
        let absent : find_row (host_has_id id) hs ≡ none =
          subst (λ (s : String). find_row (λ (h : HostRow c). str_eq h.id s) hs ≡ none)
            ((eq_iff g.id id).0 same) k.0 in
        rw (same, update_rows-none (host_has_id id) f hs absent, w g)
          (untaken id written hs absent (taken_tail id written g hs t), u.1)
    | inr other ↦ rw other (
      find_row-update_none (shares g.provider_resource_id) (host_has_id id) f hs
          (λ h.
            shares_written g.provider_resource_id written (f h) (w h)
              (taken_head id written g hs other t))
          u.0,
      Unshared-update id written f hs w k.1 (taken_tail id written g hs t) u.1,
    )
  ]
