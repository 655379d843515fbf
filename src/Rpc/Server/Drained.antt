-- ===== src/Rpc/Server/Drained.antt =====
-- The end of `serve_bound` of rpc.rs: after the cancellation the tasks that are left are joined.
use mc_control_plane.Base.{
  ℕ, zero, suc, ◌+◌, ◌*◌, some, List, [], ◌∷◌, ◌≡◌, refl, sym, ap, subst, ◌∙◌, arith, Option-cases,
  inl, inr, ◌⊎◌, length,
}
use mc_control_plane.Rpc.Server.{
  Phase, Server, Event, end_task, join_next, leave, draining_step, step_in, step, run,
}

-- The events that are left: a task that runs ends and is joined.
abbrev pub events_left : Phase → Server → ℕ
events_left Phase.draining s = 2 * s.running + s.ended + 1
events_left _ s = 0

-- The loop has ended with no task left, or another event can happen.
abbrev pub IsDone : Server → Type 0
IsDone s = (s.phase ≡ Phase.stopped) × (s.running ≡ 0) × (s.ended ≡ 0)

abbrev pub CanGoOn : Server → Type 0
CanGoOn s = (s.phase ≡ Phase.draining) × (event : Event) × (t : Server) × (step event s ≡ some t)

-- A step of the end takes one event of those that are left, and leads to the end or goes on.
abbrev Falls : Server → Server → Type 0
Falls s t =
    (1 + events_left t.phase t ≡ events_left Phase.draining s)
    × (IsDone t ⊎ (t.phase ≡ Phase.draining))

end_task-Falls :
    (n : ℕ) (s t : Server)
    → s.phase ≡ Phase.draining
    → s.running ≡ n
    → end_task n s ≡ some t
    → Falls s t
end_task-Falls zero s t d q e = cc
end_task-Falls (suc n) s t d q e = (ground (arith, d, q, e), inr (ground (arith, d, e)))

join_next-Falls :
    (n : ℕ) (s t : Server)
    → s.phase ≡ Phase.draining
    → s.ended ≡ n
    → join_next n s ≡ some t
    → Falls s t
join_next-Falls zero s t d q e = cc
join_next-Falls (suc n) s t d q e = (ground (arith, d, q, e), inr (ground (arith, d, e)))

leave-Falls :
    (m n : ℕ) (s t : Server)
    → s.phase ≡ Phase.draining
    → s.running ≡ m
    → s.ended ≡ n
    → leave m n s ≡ some t
    → Falls s t
leave-Falls zero zero s t d q r e =
    (ground (arith, q, r, e), inl (ground (arith, e), ground (arith, q, e), ground (arith, r, e)))
leave-Falls zero (suc n) s t d q r e = cc
leave-Falls (suc m) n s t d q r e = cc

draining-Falls :
    (event : Event) (s t : Server)
    → s.phase ≡ Phase.draining
    → draining_step event s ≡ some t
    → Falls s t
draining-Falls Event.accepted s t d e = cc
draining-Falls Event.task_ended s t d e = end_task-Falls s.running s t d refl e
draining-Falls Event.joined s t d e = join_next-Falls s.ended s t d refl e
draining-Falls Event.cancelled s t d e = cc
draining-Falls Event.all_joined s t d e = leave-Falls s.running s.ended s t d refl refl e
draining-Falls (Event.accept_failed m) s t d e = cc

-- Some event can happen until the loop has ended.
draining-CanGoOn :
    (m n : ℕ) (s : Server) → s.phase ≡ Phase.draining → s.running ≡ m → s.ended ≡ n → CanGoOn s
unfolding step step_in
draining-CanGoOn (suc m) n s d q r = (
  d,
  Event.task_ended,
  record s { permits = suc s.permits; running = m; ended = suc s.ended },
  ground (arith, d, q),
)
draining-CanGoOn zero (suc n) s d q r =
    (d, Event.joined, record s { ended = n }, ground (arith, d, r))
draining-CanGoOn zero zero s d q r =
    (d, Event.all_joined, record s { phase = Phase.stopped }, ground (arith, d, q, r))

-- A server that has stopped takes no event.
IsDone-run :
    (events : List Event) (s t : Server)
    → IsDone s
    → run events s ≡ some t
    → (length events + events_left t.phase t ≡ 0) × IsDone t
unfolding run step step_in
IsDone-run [] s t h e = (ground (arith, h.0, e), ground (arith, h, e))
IsDone-run (event ∷ events) s t h e = absurd (ground (arith, h.0, e))

draining_next :
    (event : Event) (s t : Server)
    → s.phase ≡ Phase.draining
    → step event s ≡ some t
    → draining_step event s ≡ some t
unfolding step step_in
draining_next event s t d e = ap (λ p. step_in p event s) (sym d) ∙ e

-- After a cancellation, whatever the order in which tasks end and are joined: a run has one event for
-- each that is no longer left, so at most two for each task that was running, one for each that had
-- ended and one more; and it has ended, with no task left, or another event can happen.
pub drain_lem :
    (events : List Event) (s t : Server)
    → s.phase ≡ Phase.draining
    → run events s ≡ some t
    → (length events + events_left t.phase t ≡ 2 * s.running + s.ended + 1) × (IsDone t ⊎ CanGoOn t)
unfolding run
drain_lem [] s t d e =
    let same : s ≡ t = ground (arith, e) in
    (
      ground (arith, d, e),
      inr (subst CanGoOn same (draining-CanGoOn s.running s.ended s d refl refl)),
    )
drain_lem (event ∷ events) s t d e = elim (Option-cases (step event s)) [
  | inl stuck ↦ absurd (ground (arith, stuck))
  | inr (s', next) ↦
      let (taken, after) = draining-Falls event s s' d (draining_next event s s' d next) in
      let rest : run events s' ≡ some t = ground (arith, next, e) in
      elim after [
        | inl done ↦
            let (none_left, ended) = IsDone-run events s' t done rest in
            (ground (arith, none_left, taken, done.0), inl ended)
        | inr on ↦
            let (left, state) = drain_lem events s' t on rest in
            (ground (arith, left, taken, on), state)
      ]
]
