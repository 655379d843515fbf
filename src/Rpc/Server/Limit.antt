-- ===== src/Rpc/Server/Limit.antt =====
-- The bound on the connections that `serve_bound` of rpc.rs serves at a time.
use mc_control_plane.Base.{
  ℕ, zero, suc, ◌+◌, ◌-◌, ◌<◌, ◌≤◌, ◌⊎◌, some, List, [], ◌∷◌, ◌≡◌, refl, arith, Option-cases, inl,
  inr,
}
use mc_control_plane.Rpc.Server.{
  Phase, Server, Event, max_connections, accept, end_task, join_next, leave, accepting_step,
  draining_step, start, step_in, step, run,
}

-- Each permit is left or held by a running task.
abbrev Permitted : Server → Type 0
Permitted s = s.permits + s.running ≡ max_connections

accept-Permitted : (n : ℕ) (s : Server) → s.permits ≡ n → Permitted s → Permitted (accept n s)
accept-Permitted zero s e h = h
accept-Permitted (suc n) s e h = omega (arith, e, h)

end_task-Permitted :
    (n : ℕ) (s t : Server) → s.running ≡ n → end_task n s ≡ some t → Permitted s → Permitted t
end_task-Permitted zero s t q e h = cc
end_task-Permitted (suc n) s t q e h = ground arith

join_next-Permitted : (n : ℕ) (s t : Server) → join_next n s ≡ some t → Permitted s → Permitted t
join_next-Permitted zero s t e h = cc
join_next-Permitted (suc n) s t e h = ground arith

leave-Permitted : (m n : ℕ) (s t : Server) → leave m n s ≡ some t → Permitted s → Permitted t
leave-Permitted zero zero s t e h = ground arith
leave-Permitted zero (suc n) s t e h = cc
leave-Permitted (suc m) n s t e h = cc

accepting-Permitted :
    (event : Event) (s t : Server) → accepting_step event s ≡ some t → Permitted s → Permitted t
accepting-Permitted Event.accepted s t e h = ground (arith, accept-Permitted s.permits s refl h)
accepting-Permitted Event.task_ended s t e h = end_task-Permitted s.running s t refl e h
accepting-Permitted Event.joined s t e h = join_next-Permitted s.ended s t e h
accepting-Permitted Event.cancelled s t e h = ground arith
accepting-Permitted Event.all_joined s t e h = cc
accepting-Permitted (Event.accept_failed m) s t e h = ground arith

draining-Permitted :
    (event : Event) (s t : Server) → draining_step event s ≡ some t → Permitted s → Permitted t
draining-Permitted Event.accepted s t e h = cc
draining-Permitted Event.task_ended s t e h = end_task-Permitted s.running s t refl e h
draining-Permitted Event.joined s t e h = join_next-Permitted s.ended s t e h
draining-Permitted Event.cancelled s t e h = cc
draining-Permitted Event.all_joined s t e h = leave-Permitted s.running s.ended s t e h
draining-Permitted (Event.accept_failed m) s t e h = cc

step_in-Permitted :
    (p : Phase) (event : Event) (s t : Server)
    → step_in p event s ≡ some t
    → Permitted s
    → Permitted t
unfolding step_in
step_in-Permitted Phase.accepting event s t e h = accepting-Permitted event s t e h
step_in-Permitted Phase.draining event s t e h = draining-Permitted event s t e h
step_in-Permitted Phase.stopped event s t e h = cc
step_in-Permitted (Phase.failed m) event s t e h = cc

run-Permitted :
    (events : List Event) (s t : Server) → run events s ≡ some t → Permitted s → Permitted t
unfolding run step
run-Permitted [] s t e h = ground arith
run-Permitted (event ∷ events) s t e h = elim (Option-cases (step event s)) [
  | inl stuck ↦ absurd (ground (arith, stuck))
  | inr (s', next) ↦
      run-Permitted events s' t (ground (arith, next)) (step_in-Permitted s.phase event s s' next h)
]

accept_at :
    (n : ℕ) (s : Server)
    → s.permits ≡ n
    → Permitted s
    → ((s.running < max_connections)
        × (accept n s ≡ record s { permits = s.permits - 1; running = suc s.running }))
      ⊎ ((s.running ≡ max_connections) × (accept n s ≡ s))
accept_at zero s e h = inr (omega arith, refl)
accept_at (suc n) s e h = inl (omega arith, ground arith)

-- Whatever connections come and end, at most 64 are served at a time; a further one is served as
-- well if fewer than 64 are, and is dropped, with nothing changed, just if 64 are.
pub run-accepted :
    (events : List Event) (s : Server)
    → run events start ≡ some s
    → s.phase ≡ Phase.accepting
    → (s.running ≤ max_connections)
      × (((s.running < max_connections)
            × (step Event.accepted s
                ≡ some (record s { permits = s.permits - 1; running = suc s.running })))
          ⊎ ((s.running ≡ max_connections) × (step Event.accepted s ≡ some s)))
unfolding step step_in
run-accepted events s e p =
    let h = run-Permitted events start s e refl in
    (
      omega (arith, h),
      elim (accept_at s.permits s refl h) [
        | inl (room, more) ↦ inl (room, ground (arith, p, more))
        | inr (full, same) ↦ inr (full, ground (arith, p, same))
      ],
    )
