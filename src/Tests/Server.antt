-- ===== src/Tests/Server.antt =====
-- The server's loop at concrete events.
use mc_control_plane.Base.{◌+◌, ◌≤◌, ◌<◌, some, List, [], ◌∷◌, ◌≡◌, ◌⊎◌, refl}
use mc_control_plane.Rpc.Server.{Phase, Server, Event, max_connections, start, step, run}
use mc_control_plane.Rpc.Server.Limit.{run-accepted}
use mc_control_plane.Rpc.Server.Drained.{events_left, IsDone, CanGoOn, drain_lem}

abbrev two : Server
two = record { phase = Phase.accepting; permits = 62; running = 2; ended = 0 }

abbrev one_more : List Event
one_more = Event.accepted ∷ Event.accepted ∷ Event.task_ended ∷ Event.accepted ∷ Event.joined ∷ []

reached : run one_more start ≡ some two
unfolding run step
reached = refl

run-accepted_example :
    (2 ≤ max_connections)
    × (((2 < max_connections)
          × (step Event.accepted two ≡ some (record two { permits = 61; running = 3 })))
        ⊎ ((2 ≡ max_connections) × (step Event.accepted two ≡ some two)))
run-accepted_example = run-accepted one_more two reached refl

abbrev cancelled : Server
cancelled = record two { phase = Phase.draining }

abbrev one_ended : Server
one_ended = record { phase = Phase.draining; permits = 63; running = 1; ended = 1 }

drained : run (Event.task_ended ∷ []) cancelled ≡ some one_ended
unfolding run step
drained = refl

drain_lem_example :
    (1 + events_left Phase.draining one_ended ≡ 5) × (IsDone one_ended ⊎ CanGoOn one_ended)
drain_lem_example = drain_lem (Event.task_ended ∷ []) cancelled one_ended refl drained
