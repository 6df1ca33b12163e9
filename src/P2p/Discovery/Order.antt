-- ===== src/P2p/Discovery/Order.antt =====
-- The heap of scheduled dials is ordered over any history of the behaviour.
use hopr_impls.Base.{
  ℕ, ◌≡◌, subst, Bool, not, ◌||◌, Option, none, some, List, [], ◌∷◌, ◌++◌, ◌+◌, ◌-◌, map, if_lem,
  ◌==◌,
}
use hopr_impls.Base.Keyed.{nat_key, get, insert, remove}
use hopr_impls.P2p.Discovery.Defs.{
  Network, Delayed, new_external_addr_of_peer, dialable_addresses, Behaviour, contains, new,
  has_known_address, has_scheduled_dial, or_ten_seconds, cancel_dial, schedule_dial_with,
  connection_established, connection_closed, dial_failure, backoff_or_initial, count, FromSwarm,
  established, closed, failed, other, on_swarm_event,
}
use hopr_impls.P2p.Discovery.Poll.{
  StreamPoll, stream_pending, stream_end, announce, on_announce, learn, dispatch_dial,
  push_dial_event, Call, run,
}
use hopr_impls.P2p.Discovery.Heap.{IsSorted, push_dial-IsSorted, drop_dials-IsSorted}
use hopr_impls.P2p.Discovery.Runs.{run_invariant}

module _ {B : Type 0} (net : Network B) where
  unfoldable pub IsOrdered : Behaviour B → Type 0
  IsOrdered s = IsSorted s.next_dial_attempts

  schedule-IsOrdered :
      (now p : ℕ) (b : B) (s : Behaviour B)
      → IsOrdered s
      → IsOrdered (schedule_dial_with net now p b s)
  unfolding schedule_dial_with IsOrdered
  schedule-IsOrdered now p b s w =
      if_lem IsOrdered (not (has_known_address net p s) || has_scheduled_dial net p s) (λ _. w)
        (λ _.
          push_dial-IsSorted
            (record { release_at = now + or_ten_seconds (net.next_backoff b).0; item = p })
            s.next_dial_attempts w)

  event-IsOrdered :
      (now : ℕ) (e : FromSwarm) (s : Behaviour B)
      → IsOrdered s
      → IsOrdered (on_swarm_event net now e s)
  unfolding on_swarm_event connection_established connection_closed dial_failure cancel_dial
      IsOrdered
  event-IsOrdered now (established p) s w = drop_dials-IsSorted p s.next_dial_attempts w
  event-IsOrdered now other s w = w
  event-IsOrdered now (failed none b) s w = w
  event-IsOrdered now (failed (some p) b) s w =
      if_lem IsOrdered (contains p s.connected_peers || b || not (has_known_address net p s))
        (λ _. drop_dials-IsSorted p s.next_dial_attempts w)
        (λ _.
          if_lem IsOrdered (not (contains p s.queued_dials))
            (λ _.
              schedule-IsOrdered now p (backoff_or_initial net (get p s.not_connected_peers))
                (record s { not_connected_peers = remove p s.not_connected_peers }) w)
            (λ _. w))
  event-IsOrdered now (closed p) s w =
      if_lem IsOrdered (count net (get p s.connected_peers) - 1 == 0)
        (λ _.
          if_lem IsOrdered (contains p s.not_connected_peers) (λ _. w)
            (λ _.
              schedule-IsOrdered now p net.initial_backoff
                (record s { connected_peers = remove p s.connected_peers }) w))
        (λ _. w)

  learn-IsOrdered :
      (now p : ℕ) (addresses : List ℕ) (s : Behaviour B)
      → IsOrdered s
      → IsOrdered (learn net now p addresses s)
  unfolding IsOrdered
  learn-IsOrdered now p [] s w = w
  learn-IsOrdered now p (a ∷ rest) s w =
      if_lem IsOrdered (contains p s.connected_peers || contains p s.not_connected_peers) (λ _. w)
        (λ _.
          schedule-IsOrdered now p net.initial_backoff
            (record s { bootstrap_peers = insert p (a ∷ rest) s.bootstrap_peers }) w)

  announce-IsOrdered :
      (now : ℕ) (event : StreamPoll) (s : Behaviour B)
      → IsOrdered s
      → IsOrdered (on_announce net now event s)
  unfolding on_announce IsOrdered
  announce-IsOrdered now stream_pending s w = w
  announce-IsOrdered now stream_end s w = w
  announce-IsOrdered now (announce p addresses) s w =
      let dialable = dialable_addresses net s addresses in
      if_lem IsOrdered (p == s.me) (λ _. w)
        (λ _.
          learn-IsOrdered now p dialable
            (record s {
              pending_events = s.pending_events ++ map (new_external_addr_of_peer p) dialable;
            })
            w)

  push_event-IsOrdered :
      (p : ℕ) (known : Option (List ℕ)) (s : Behaviour B)
      → IsOrdered s
      → IsOrdered (push_dial_event net p known s)
  unfolding IsOrdered cancel_dial
  push_event-IsOrdered p none s w = drop_dials-IsSorted p s.next_dial_attempts w
  push_event-IsOrdered p (some []) s w = drop_dials-IsSorted p s.next_dial_attempts w
  push_event-IsOrdered p (some (a ∷ rest)) s w = w

  pub dispatch_dial-IsOrdered :
      (p t : ℕ) (rest : List Delayed) (s : Behaviour B)
      → IsOrdered s
      → s.next_dial_attempts ≡ record { release_at = t; item = p } ∷ rest
      → IsOrdered (dispatch_dial net p (record s { next_dial_attempts = rest }))
  unfolding IsOrdered dispatch_dial
  dispatch_dial-IsOrdered p t rest s w e =
      let left : IsSorted rest = (subst IsSorted e w).1 in
      if_lem IsOrdered (contains p s.not_connected_peers)
        (λ _.
          push_event-IsOrdered p (get p s.bootstrap_peers)
            (record s { next_dial_attempts = rest; queued_dials = remove p s.queued_dials }) left)
        (λ _. left)

  pub run-IsOrdered : (me : ℕ) (b : Bool) (cs : List Call) → IsOrdered (run net cs (new net me b))
  unfolding IsOrdered new
  run-IsOrdered me b cs =
      run_invariant net IsOrdered (λ e. Unit {0}) event-IsOrdered announce-IsOrdered
        dispatch_dial-IsOrdered (λ e es s h w. (w, tt)) (λ t s w. w) cs (new net me b) tt
