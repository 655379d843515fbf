-- ===== src/Controller/Service.antt =====
-- The control plane as a whole: the RPC server of rpc.rs and the loop of `run` in controller.rs take
-- turns on one database and one provider.
pub mod Demand
use mc_control_plane.Base.{String, ℕ, zero, suc, ℤ, Bool, true, false, List, ◌≡◌, Result, ok, err}
use mc_control_plane.Protocol.{HostClaimId}
use mc_control_plane.AppErrors.{AppError}
use mc_control_plane.Codec.{Codec}
use mc_control_plane.Storage.Tables.{Db}
use mc_control_plane.Storage.Invariant.Interface.{IsInvariant}
use mc_control_plane.Storage.Invariant.Consistent.{
  IsConsistent, IsConsistent-IsInvariant, IsConsistent-IsKeptByDeletion,
}
use mc_control_plane.Storage.Invariant.Checked.{
  IsChecked, IsChecked-IsInvariant, IsChecked-IsKeptByDeletion,
}
use mc_control_plane.Provider.{HostProvider}
use mc_control_plane.Rpc.{RpcContext, Request, Shared, handle, wake}
use mc_control_plane.Rpc.Preserved.{
  Allows, AllowsBatches, Always, Allows-Always, AllowsBatches-Always, handle-Inv,
}
use mc_control_plane.Controller.Preserved.{Holds}
use mc_control_plane.Controller.World.{ReconcileResult, Readings, World, wake_controller}
use mc_control_plane.Controller.Loop.{
  steps, wake_up, start_round, after_step, end_round, max_steps_per_wake,
}
use mc_control_plane.Controller.Preserved.Scan.{reconcile_once-Maintains}
use mc_control_plane.Storage.Invariant.Guarded.{unguarded, IsDeletionGuard}

abbrev pub Clock : Type 0
Clock = ℕ → ℤ × (HostClaimId → Readings)

module _ (c : Codec) (context : RpcContext) {P : Type 0} (provider : HostProvider P)
    (initial : Db c) where
  -- The states that a run reaches from a database. The controller starts with a permit stored; a round is entered by
  -- a notification, which needs a permit, or by a tick.
  pub data Reachable : Shared c → P → Type 0 where
    started : (p : P) → Reachable (record { db = initial; notified = true }) p
    requested :
        (s : Shared c) (p : P) (request : Request)
        → Reachable s p
        → Reachable (handle c context request s).1 p
    -- The provider changes on its own.
    changed : (s : Shared c) (p p' : P) → Reachable s p → Reachable s p'
    notified_round :
        (s : Shared c) (p : P) (requests : List (List Request)) (clock : Clock)
        → s.notified ≡ true
        → Reachable s p
        → Reachable
            (wake_up c context provider true clock
              (record { shared = s; provider = p; requests = requests })).shared
            (wake_up c context provider true clock
              (record { shared = s; provider = p; requests = requests })).provider
    ticked_round :
        (s : Shared c) (p : P) (requests : List (List Request)) (clock : Clock)
        → Reachable s p
        → Reachable
            (wake_up c context provider false clock
              (record { shared = s; provider = p; requests = requests })).shared
            (wake_up c context provider false clock
              (record { shared = s; provider = p; requests = requests })).provider

module _ {c : Codec} {context : RpcContext} {P : Type 0} {provider : HostProvider P}
    {initial : Db c} (Allowed : HostClaimId → Type 0) where
  -- A run in which requests, also those that arrive during a round, ask for the deletion of none but the
  -- given claims.
  abbrev pub Asks : (s : Shared c) (p : P) → Reachable c context provider initial s p → Type 0
  Asks _ _ (Reachable.started p) = Unit
  Asks _ _ (Reachable.requested s p request r) = Allows Allowed request × Asks s p r
  Asks _ _ (Reachable.changed s p p' r) = Asks s p r
  Asks _ _ (Reachable.notified_round s p requests clock e r) =
      AllowsBatches Allowed requests × Asks s p r
  Asks _ _ (Reachable.ticked_round s p requests clock r) =
      AllowsBatches Allowed requests × Asks s p r

module _ {c : Codec} {context : RpcContext} {P : Type 0} {provider : HostProvider P}
    {initial : Db c} where
  Asks-Always :
      (s : Shared c) (p : P) (r : Reachable c context provider initial s p) → Asks Always s p r
  Asks-Always _ _ (Reachable.started p) = tt
  Asks-Always _ _ (Reachable.requested s p request r) = (Allows-Always request, Asks-Always s p r)
  Asks-Always _ _ (Reachable.changed s p p' r) = Asks-Always s p r
  Asks-Always _ _ (Reachable.notified_round s p requests clock e r) =
      (AllowsBatches-Always requests, Asks-Always s p r)
  Asks-Always _ _ (Reachable.ticked_round s p requests clock r) =
      (AllowsBatches-Always requests, Asks-Always s p r)

module _ (c : Codec) (context : RpcContext) {P : Type 0} (provider : HostProvider P)
    {Allowed : HostClaimId → Type 0} {Inv : Db c → Type 0} (k : IsInvariant Allowed Inv)
    {Guard : String → Db c → Type 0} (d : IsDeletionGuard Guard Allowed Inv) where
  start_round-Inv :
      (notified : Bool) (w : World c P)
      → Holds Allowed Inv w
      → Holds Allowed Inv (start_round c context provider notified w)
  start_round-Inv true w v = v
  start_round-Inv false w v = v

  end_round-Inv :
      (b : Bool) (w : World c P)
      → Holds Allowed Inv w
      → Holds Allowed Inv (end_round c context provider (b, w))
  unfolding wake_controller wake
  end_round-Inv true w v = v
  end_round-Inv false w v = v

  after_step-Inv :
      (next : World c P → Bool × World c P)
      → ((w : World c P) → Holds Allowed Inv w → Holds Allowed Inv (next w).1)
      → (r : Result AppError ReconcileResult × World c P) → Holds Allowed Inv r.1
      → Holds Allowed Inv (after_step c context provider next r).1
  after_step-Inv next h (ok ReconcileResult.progress, w) v = h w v
  after_step-Inv next h (ok ReconcileResult.idle, w) v = v
  after_step-Inv next h (err e, w) v = v

  steps-Inv :
      (n : ℕ) (clock : Clock) (w : World c P)
      → Holds Allowed Inv w
      → Holds Allowed Inv (steps c context provider n clock w).1
  unfolding steps
  steps-Inv zero clock w v = v
  steps-Inv (suc n) clock w v =
      after_step-Inv (steps c context provider n clock) (steps-Inv n clock) _
        ((reconcile_once-Maintains c context provider k d (clock n).0 (clock n).1).at w v)

  wake_up-Inv :
      (notified : Bool) (clock : Clock) (w : World c P)
      → Holds Allowed Inv w
      → Holds Allowed Inv (wake_up c context provider notified clock w)
  unfolding wake_up
  wake_up-Inv notified clock w v =
      end_round-Inv _ _ (steps-Inv max_steps_per_wake clock _ (start_round-Inv notified w v))

  pub Reachable-Inv :
      (initial : Db c)
      → Inv initial
      → (s : Shared c) (p : P) (r : Reachable c context provider initial s p) → Asks Allowed s p r
      → Inv s.db
  Reachable-Inv initial v _ _ (Reachable.started p) a = v
  Reachable-Inv initial v _ _ (Reachable.requested s p request r) a =
      handle-Inv c context k request s a.0 (Reachable-Inv initial v s p r a.1)
  Reachable-Inv initial v _ _ (Reachable.changed s p p' r) a = Reachable-Inv initial v s p r a
  Reachable-Inv initial v _ _ (Reachable.notified_round s p requests clock e r) a =
      (wake_up-Inv true clock _ (Reachable-Inv initial v s p r a.1, a.0)).0
  Reachable-Inv initial v _ _ (Reachable.ticked_round s p requests clock r) a =
      (wake_up-Inv false clock _ (Reachable-Inv initial v s p r a.1, a.0)).0

module _ (c : Codec) (context : RpcContext) {P : Type 0} (provider : HostProvider P)
    (initial : Db c) where
  -- Every state that requests and rounds reach from a consistent database, with any requests handled
  -- during a round and any answers of the provider, has a consistent database.
  pub Reachable-IsConsistent :
      IsConsistent initial
      → (s : Shared c) (p : P) → Reachable c context provider initial s p
      → IsConsistent s.db
  Reachable-IsConsistent v s p r =
      Reachable-Inv c context provider IsConsistent-IsInvariant
        (unguarded IsConsistent-IsKeptByDeletion) initial v s p r (Asks-Always s p r)

  -- Every state that requests and rounds reach from a database whose rows meet the CHECK clauses has
  -- such a database.
  pub Reachable-IsChecked :
      IsChecked initial
      → (s : Shared c) (p : P) → Reachable c context provider initial s p
      → IsChecked s.db
  Reachable-IsChecked v s p r =
      Reachable-Inv c context provider IsChecked-IsInvariant (unguarded IsChecked-IsKeptByDeletion)
        initial v s p r (Asks-Always s p r)
