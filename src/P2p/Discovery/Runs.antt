-- ===== src/P2p/Discovery/Runs.antt =====
-- What each part of `poll` and each event preserves holds after any sequence of calls.
use hopr_impls.Base.{
  ℕ, ◌≡◌, refl, Bool, Option, none, some, List, [], ◌∷◌, length, if_lem, if◌then◌else◌,
}
use hopr_impls.P2p.Discovery.Defs.{Network, Delayed, ToSwarm, Behaviour, FromSwarm, on_swarm_event}
use hopr_impls.P2p.Discovery.Poll.{
  StreamPoll, is_ready, on_announce, dispatch_dial, dispatch_all, arm_next_dial_timer, finish,
  poll_dials, poll_announced, poll_stream, poll_pending, poll, Call, swarm_event, polled, run,
}
use hopr_impls.P2p.Discovery.Dispatch.{dispatch_invariant}

-- What a poll is ready with, if anything, satisfies a predicate.
abbrev pub Returns {κ} : (ToSwarm → Type κ) → Option ToSwarm → Type κ
Returns Q none = Unit
Returns Q (some e) = Q e

module _ {ℓ κ} {B : Type 0} (net : Network B) (P : Behaviour B → Type ℓ) (Q : ToSwarm → Type κ)
    (event_lem : (now : ℕ) (e : FromSwarm) (s : Behaviour B) → P s → P (on_swarm_event net now e s))
    (announce_lem : (now : ℕ) (event : StreamPoll) (s : Behaviour B)
      → P s
      → P (on_announce net now event s))
    (round : (p t : ℕ) (rest : List Delayed) (s : Behaviour B)
      → P s
      → s.next_dial_attempts ≡ record { release_at = t; item = p } ∷ rest
      → P (dispatch_dial net p (record s { next_dial_attempts = rest })))
    (pop : (e : ToSwarm) (es : List ToSwarm) (s : Behaviour B)
      → s.pending_events ≡ e ∷ es
      → P s
      → P (record s { pending_events = es }) × Q e)
    (timer : (t : Option ℕ) (s : Behaviour B) → P s → P (record s { next_dial_timer = t })) where
  arm_lem :
      (fired : Bool) (ds : List Delayed) (s : Behaviour B)
      → P s
      → P (arm_next_dial_timer net fired ds s)
  arm_lem fired [] s w = timer none s w
  arm_lem fired (d ∷ ds) s w = timer (if fired then none else some d.release_at) s w

  abbrev Kept : Option ToSwarm × Behaviour B → Type (ℓ ⊔ κ)
  Kept r = P r.1 × Returns Q r.0

  finish_lem :
      (fired : Bool) (es : List ToSwarm) (s : Behaviour B)
      → s.pending_events ≡ es
      → P s
      → Kept (finish net fired es s)
  finish_lem fired [] s h w = (arm_lem fired s.next_dial_attempts s w, tt)
  finish_lem fired (e ∷ es) s h w = pop e es s h w

  dials_lem : (now : ℕ) (fired : Bool) (s : Behaviour B) → P s → Kept (poll_dials net now fired s)
  dials_lem now fired s w =
      let s' = dispatch_all net now s in
      finish_lem fired s'.pending_events s' refl
        (dispatch_invariant net P now round (length s.next_dial_attempts) s w)

  announced_lem :
      (now : ℕ) (fired : Bool) (es : List ToSwarm) (s : Behaviour B)
      → s.pending_events ≡ es
      → P s
      → Kept (poll_announced net now fired es s)
  announced_lem now fired [] s h w = dials_lem now fired s w
  announced_lem now fired (e ∷ es) s h w = pop e es s h w

  stream_lem :
      (now : ℕ) (fired : Bool) (event : StreamPoll) (s : Behaviour B)
      → P s
      → Kept (poll_stream net now fired event s)
  stream_lem now fired event s w =
      let s' = on_announce net now event s in
      let w' = announce_lem now event s w in
      if_lem Kept (is_ready event) (λ _. announced_lem now fired s'.pending_events s' refl w')
        (λ _. dials_lem now fired s' w')

  pending_lem :
      (now : ℕ) (fired : Bool) (event : StreamPoll) (es : List ToSwarm) (s : Behaviour B)
      → s.pending_events ≡ es
      → P s
      → Kept (poll_pending net now fired event es s)
  pending_lem now fired event [] s h w = stream_lem now fired event s w
  pending_lem now fired event (e ∷ es) s h w = pop e es s h w

  pub run_invariant : (cs : List Call) (s : Behaviour B) → P s → P (run net cs s)
  unfolding run poll
  run_invariant [] s w = w
  run_invariant (swarm_event now e ∷ cs) s w =
      run_invariant cs (on_swarm_event net now e s) (event_lem now e s w)
  run_invariant (polled now fired event ∷ cs) s w =
      run_invariant cs (poll net now fired event s).1
        (pending_lem now fired event s.pending_events s refl w).0

  pub poll-Returns :
      (now : ℕ) (fired : Bool) (event : StreamPoll) (s : Behaviour B)
      → P s
      → Returns Q (poll net now fired event s).0
  unfolding poll
  poll-Returns now fired event s w = (pending_lem now fired event s.pending_events s refl w).1
