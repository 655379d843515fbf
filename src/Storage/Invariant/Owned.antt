-- ===== src/Storage/Invariant/Owned.antt =====
-- Every Host has its claim: the foreign key of the table of Hosts, with its cascade.
use mc_control_plane.Base.{
  String, str_eq, eq_iff, is_some, Bool, true, false, List, [], ◌∷◌, ◌++◌, ◌≡◌, refl, sym, ap, ◌∙◌,
  subst, if◌then◌else◌, find_row, update_rows, delete_rows, Bool-cases, inl, inr,
}
use mc_control_plane.Base.Table.Keys.{find_row-delete_rows}
use mc_control_plane.Codec.{Codec}
use mc_control_plane.Storage.Rows.{ClaimRow, HostRow}
use mc_control_plane.Storage.Tables.{claim_has_id, host_has_claim}

module _ {c : Codec} where
  -- Every Host's claim is there.
  abbrev pub Owned : List (ClaimRow c) → List (HostRow c) → Type 0
  Owned claims [] = Unit
  Owned claims (h ∷ hs) =
      (is_some (find_row (claim_has_id h.claim_id) claims) ≡ true) × Owned claims hs

  pub Owned-keep :
      (claims claims' : List (ClaimRow c)) (hs : List (HostRow c))
      → ((id : String)
          → is_some (find_row (claim_has_id id) claims) ≡ true
          → is_some (find_row (claim_has_id id) claims') ≡ true)
      → Owned claims hs
      → Owned claims' hs
  Owned-keep claims claims' [] k o = tt
  Owned-keep claims claims' (h ∷ hs) k o = (k h.claim_id o.0, Owned-keep claims claims' hs k o.1)

  pub Owned-append :
      (claims : List (ClaimRow c)) (hs : List (HostRow c)) (h : HostRow c)
      → is_some (find_row (claim_has_id h.claim_id) claims) ≡ true
      → Owned claims hs
      → Owned claims (hs ++ h ∷ [])
  Owned-append claims [] h e o = (e, tt)
  Owned-append claims (g ∷ hs) h e o = (o.0, Owned-append claims hs h e o.1)

  pub Owned-update :
      (claims : List (ClaimRow c)) (p : HostRow c → Bool) (f : HostRow c → HostRow c)
      (hs : List (HostRow c))
      → ((h : HostRow c) → (f h).claim_id ≡ h.claim_id)
      → Owned claims hs
      → Owned claims (update_rows p f hs)
  unfolding update_rows
  Owned-update claims p f [] k o = tt
  Owned-update claims p f (h ∷ hs) k o = (
    subst (λ id. is_some (find_row (claim_has_id id) claims) ≡ true) (sym (same (p h))) o.0,
    Owned-update claims p f hs k o.1,
  )
    where
      same : (b : Bool) → (if b then f h else h).claim_id ≡ h.claim_id
      same true = k h
      same false = refl

  other_key :
      (id k : String) (r : ClaimRow c)
      → str_eq k id ≡ false
      → str_eq r.id k ≡ true
      → str_eq r.id id ≡ false
  other_key id k r n e = subst (λ s. str_eq s id ≡ false) (sym ((eq_iff r.id k).0 e)) n

  -- The cascade leaves no Host without its claim.
  pub Owned-delete :
      (id : String) (claims : List (ClaimRow c)) (hs : List (HostRow c))
      → Owned claims hs
      → Owned (delete_rows (claim_has_id id) claims) (delete_rows (host_has_claim id) hs)
  unfolding delete_rows
  Owned-delete id claims [] o = tt
  Owned-delete id claims (h ∷ hs) o = elim (Bool-cases (str_eq h.claim_id id)) [
    | inl same ↦ rw same (Owned-delete id claims hs o.1)
    | inr other ↦ rw other (
      ap is_some (
            find_row-delete_rows (claim_has_id h.claim_id) (claim_has_id id) claims
              (λ r. other_key id h.claim_id r other))
          ∙ o.0,
      Owned-delete id claims hs o.1,
    )
  ]
