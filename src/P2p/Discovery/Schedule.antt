-- ===== src/P2p/Discovery/Schedule.antt =====
-- The schedule of dials over any history of the behaviour.
use hopr_impls.Base.{
  ℕ, ◌≤◌, ◌≡◌, refl, Bool, true, false, Option, none, some, List, [], ◌∷◌, arith, if_lem, ◌||◌,
  ◌++◌, map, ◌==◌, ◌↔◌,
}
use hopr_impls.Base.Keyed.{nat_key, get, insert, remove, get-insert, get-remove}
use hopr_impls.P2p.Discovery.Defs.{
  Network, Delayed, new_external_addr_of_peer, dialable_addresses, Behaviour, contains, new,
  has_known_address, FromSwarm, established, closed, failed, other, on_swarm_event,
}
use hopr_impls.P2p.Discovery.Poll.{
  StreamPoll, stream_pending, stream_end, announce, on_announce, learn, dispatch_dial,
  push_dial_event, Call, run,
}
use hopr_impls.P2p.Discovery.Runs.{run_invariant}
use hopr_impls.P2p.Discovery.Heap.{times}
use hopr_impls.P2p.Discovery.Scheduled.{
  IsScheduled, cancel_dial-IsScheduled, schedule-IsScheduled, established-IsScheduled,
  closed-IsScheduled, failure-IsScheduled,
}

module _ {B : Type 0} (net : Network B) (q : ℕ) where
  learn-IsScheduled :
      (now p : ℕ) (addresses : List ℕ) (s : Behaviour B)
      → IsScheduled net q s
      → IsScheduled net q (learn net now p addresses s)
  learn-IsScheduled now p [] s w = w
  learn-IsScheduled now p (a ∷ rest) s w =
      let known : Behaviour B = record s {
        bootstrap_peers = insert p (a ∷ rest) s.bootstrap_peers;
      } in
      let learnt : IsScheduled net q known = record {
        mirror = w.mirror;
        known = λ h. ground (arith, w.known, get-insert p q (a ∷ rest) s.bootstrap_peers, h);
        backed = w.backed;
        idle = w.idle;
      } in
      if_lem (IsScheduled net q) (contains p s.connected_peers || contains p s.not_connected_peers)
        (λ _. learnt)
        (λ c. schedule-IsScheduled net q now p net.initial_backoff known (ground (arith, c)) learnt)

  announce-IsScheduled :
      (now : ℕ) (event : StreamPoll) (s : Behaviour B)
      → IsScheduled net q s
      → IsScheduled net q (on_announce net now event s)
  unfolding on_announce
  announce-IsScheduled now stream_pending s w = w
  announce-IsScheduled now stream_end s w = w
  announce-IsScheduled now (announce p addresses) s w =
      let dialable = dialable_addresses net s addresses in
      if_lem (IsScheduled net q) (p == s.me) (λ _. w)
        (λ _.
          learn-IsScheduled now p dialable
            (record s {
              pending_events = s.pending_events ++ map (new_external_addr_of_peer p) dialable;
            })
            (record { mirror = w.mirror; known = w.known; backed = w.backed; idle = w.idle }))

  push_event-IsScheduled :
      (p : ℕ) (known : Option (List ℕ)) (s : Behaviour B)
      → IsScheduled net q s
      → IsScheduled net q (push_dial_event net p known s)
  push_event-IsScheduled p none s w = cancel_dial-IsScheduled net q p s w
  push_event-IsScheduled p (some []) s w = cancel_dial-IsScheduled net q p s w
  push_event-IsScheduled p (some (a ∷ rest)) s w = record {
    mirror = w.mirror;
    known = w.known;
    backed = w.backed;
    idle = w.idle;
  }

  pub dispatch_dial-IsScheduled :
      (p t : ℕ) (rest : List Delayed) (s : Behaviour B)
      → IsScheduled net q s
      → s.next_dial_attempts ≡ record { release_at = t; item = p } ∷ rest
      → IsScheduled net q (dispatch_dial net p (record s { next_dial_attempts = rest }))
  unfolding dispatch_dial times
  dispatch_dial-IsScheduled p t rest s w e =
      let popped : Behaviour B = record s {
        next_dial_attempts = rest;
        queued_dials = remove p s.queued_dials;
      } in
      let left : IsScheduled net q popped = record {
        mirror = ground (arith, w.mirror, e, get-remove p q s.queued_dials);
        known = λ h. ground (arith, w.known, get-remove p q s.queued_dials, h);
        backed = λ h. ground (arith, w.backed, get-remove p q s.queued_dials, h);
        idle = w.idle;
      } in
      if_lem (IsScheduled net q) (contains p s.not_connected_peers)
        (λ _. push_event-IsScheduled p (get p s.bootstrap_peers) popped left) (λ _. left)

  init-IsScheduled : (me : ℕ) (b : Bool) → IsScheduled net q (new net me b)
  unfolding new times get
  init-IsScheduled me b = record {
    mirror = refl;
    known = λ h. cc;
    backed = λ h. cc;
    idle = λ h. cc;
  }

  event-IsScheduled :
      (now : ℕ) (e : FromSwarm) (s : Behaviour B)
      → IsScheduled net q s
      → IsScheduled net q (on_swarm_event net now e s)
  unfolding on_swarm_event
  event-IsScheduled now (established p) s w = established-IsScheduled net q p s w
  event-IsScheduled now (closed p) s w = closed-IsScheduled net q now p s w
  event-IsScheduled now (failed p b) s w = failure-IsScheduled net q now p b s w
  event-IsScheduled now other s w = w

  pub run-IsScheduled :
      (me : ℕ) (b : Bool) (cs : List Call) → IsScheduled net q (run net cs (new net me b))
  run-IsScheduled me b cs =
      run_invariant net (IsScheduled net q) (λ e. Unit {0}) event-IsScheduled announce-IsScheduled
        dispatch_dial-IsScheduled
        (λ e es s h w.
          (record { mirror = w.mirror; known = w.known; backed = w.backed; idle = w.idle }, tt))
        (λ t s w. record { mirror = w.mirror; known = w.known; backed = w.backed; idle = w.idle })
        cs (new net me b) (init-IsScheduled me b)

  -- After any sequence of calls, a peer has at most one scheduled dial, it has one exactly if the
  -- set that mirrors the heap has it, and then it has a dialable address and a back-off and no
  -- connection.
  pub scheduled_once :
      (me : ℕ) (b : Bool) (cs : List Call)
      → let s = run net cs (new net me b) in
        (times q s.next_dial_attempts ≤ 1)
        × ((contains q s.queued_dials ≡ true) ↔ (times q s.next_dial_attempts ≡ 1))
        × (times q s.next_dial_attempts ≡ 1
            → (has_known_address net q s ≡ true)
              × (contains q s.not_connected_peers ≡ true)
              × (contains q s.connected_peers ≡ false))
  scheduled_once me b cs =
      let w = run-IsScheduled me b cs in
      (
        ground (arith, w.mirror),
        ground (arith, w.mirror),
        λ h. ground (arith, h, w.mirror, w.known, w.backed, w.idle),
      )
