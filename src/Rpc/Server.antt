-- ===== src/Rpc/Server.antt =====
-- `serve_bound` of crates/control-plane/src/rpc.rs: the loop that accepts connections, and its end.
-- A step takes an event of `select!` or of a connection's task; `none` is an event that cannot
-- happen in that state. hyper and jsonrpsee serve a connection, `handle` answers its requests.
pub mod Limit
pub mod Drained
use mc_control_plane.Base.{
  ℕ, zero, suc, ◌+◌, String, Option, none, some, List, [], ◌∷◌, Result, ok, err, map_err, Bool,
  true, false,
}
use mc_control_plane.Codec.{Codec}
use mc_control_plane.AppErrors.{ErrorObject}
use mc_control_plane.Rpc.{RpcContext, Request, Response, Shared, handle}

-- `MAX_CONNECTIONS`.
abbrev pub max_connections : ℕ
max_connections = 64

-- The loop, the joins after a cancellation, and the two ends.
pub data Phase : Type 0 where
  accepting draining stopped : Phase
  failed : String → Phase

-- `permits` is what `connection_limit` has left; `running` tasks hold one each; `ended` tasks have
-- given theirs back and are still in the `JoinSet`.
pub record Server : Type 0 where
  pub phase : Phase
  pub permits : ℕ
  pub running : ℕ
  pub ended : ℕ

pub data Event : Type 0 where
  accepted task_ended joined cancelled all_joined : Event
  accept_failed : String → Event

abbrev pub start : Server
start = record { phase = Phase.accepting; permits = max_connections; running = 0; ended = 0 }

-- `try_acquire_owned`: with no permit left the connection is dropped.
abbrev pub accept : ℕ → Server → Server
accept zero s = s
accept (suc permits) s = record s { permits = permits; running = suc s.running }

-- A task that ends drops its permit.
abbrev pub end_task : ℕ → Server → Option Server
end_task zero s = none
end_task (suc running) s =
    some (record s { permits = suc s.permits; running = running; ended = suc s.ended })

abbrev pub join_next : ℕ → Server → Option Server
join_next zero s = none
join_next (suc ended) s = some (record s { ended = ended })

-- The loop after the cancellation ends with the last task.
abbrev pub leave : ℕ → ℕ → Server → Option Server
leave zero zero s = some (record s { phase = Phase.stopped })
leave _ _ s = none

abbrev accepting_step : Event → Server → Option Server
accepting_step Event.accepted s = some (accept s.permits s)
accepting_step Event.task_ended s = end_task s.running s
accepting_step Event.joined s = join_next s.ended s
accepting_step Event.cancelled s = some (record s { phase = Phase.draining })
accepting_step Event.all_joined s = none
-- `?` drops the `JoinSet`, which aborts its tasks.
accepting_step (Event.accept_failed e) s =
    some (record { phase = Phase.failed e; permits = max_connections; running = 0; ended = 0 })

abbrev draining_step : Event → Server → Option Server
draining_step Event.accepted s = none
draining_step Event.task_ended s = end_task s.running s
draining_step Event.joined s = join_next s.ended s
draining_step Event.cancelled s = none
draining_step Event.all_joined s = leave s.running s.ended s
draining_step (Event.accept_failed e) s = none

unfoldable pub step_in : Phase → Event → Server → Option Server
step_in Phase.accepting event s = accepting_step event s
step_in Phase.draining event s = draining_step event s
step_in Phase.stopped event s = none
step_in (Phase.failed e) event s = none

unfoldable pub step : Event → Server → Option Server
unfolding step_in
step event s = step_in s.phase event s

unfoldable pub run : List Event → Server → Option Server
run [] s = some s
run (event ∷ events) s = elim (step event s) [ none ↦ none | some s' ↦ run events s' ]

-- `RejectNotifications`: a call goes to its handler, a notification is dropped unanswered. Batches
-- are disabled in the server's configuration.
pub data Message : Type 0 where
  call notification : Request → Message

unfoldable pub receive :
    (c : Codec) → RpcContext → Message → Shared c → Option (Result ErrorObject Response) × Shared c
receive c context (Message.call request) s =
    (some (handle c context request s).0, (handle c context request s).1)
receive c context (Message.notification request) s = (none, s)
