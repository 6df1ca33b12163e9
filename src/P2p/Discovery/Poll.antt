-- ===== src/P2p/Discovery/Poll.antt =====
-- transport/p2p/src/behavior/discovery.rs: `Behaviour::poll`. What the announcement stream returns
-- when it is polled is an argument, and so is whether the armed timer has fired.
use hopr_impls.Base.{
  ℕ, zero, suc, Bool, true, false, ◌||◌, Option, none, some, List, [], ◌∷◌, ◌++◌, map, length,
  if◌then◌else◌, leb, ◌==◌,
}
use hopr_impls.Base.Keyed.{nat_key, get, insert, remove}
use hopr_impls.P2p.Discovery.Defs.{
  Network, Delayed, ToSwarm, new_external_addr_of_peer, dial, Behaviour, contains,
  dialable_addresses, cancel_dial, schedule_dial_with, FromSwarm, on_swarm_event,
}

-- A poll of the stream: nothing yet, its end, or `PeerDiscovery::Announce`.
pub data StreamPoll : Type 0 where
  stream_pending stream_end : StreamPoll
  announce : (peer : ℕ) → (addresses : List ℕ) → StreamPoll

abbrev pub is_ready : StreamPoll → Bool
is_ready stream_pending = false
is_ready stream_end = true
is_ready (announce peer addresses) = true

-- The first due entry of the heap, and the heap without it.
abbrev pub pop_due : ℕ → List Delayed → Option (ℕ × List Delayed)
pop_due now [] = none
pop_due now (d ∷ ds) = if leb d.release_at now then some (d.item, ds) else none

module _ {B : Type 0} (net : Network B) where
  abbrev pub learn : (now peer : ℕ) → List ℕ → Behaviour B → Behaviour B
  learn now peer [] s = s
  learn now peer (a ∷ rest) s =
      let known : Behaviour B = record s {
        bootstrap_peers = insert peer (a ∷ rest) s.bootstrap_peers;
      } in
      if contains peer s.connected_peers || contains peer s.not_connected_peers
      then known
      else schedule_dial_with net now peer net.initial_backoff known

  unfoldable pub on_announce : ℕ → StreamPoll → Behaviour B → Behaviour B
  on_announce now stream_pending s = s
  on_announce now stream_end s = s
  on_announce now (announce peer addresses) s =
      let dialable = dialable_addresses net s addresses in
      if peer == s.me
      then s
      else learn now peer dialable (record s {
        pending_events = s.pending_events ++ map (new_external_addr_of_peer peer) dialable;
      })

  abbrev pub push_dial_event : ℕ → Option (List ℕ) → Behaviour B → Behaviour B
  push_dial_event peer none s = cancel_dial net peer s
  push_dial_event peer (some []) s = cancel_dial net peer s
  push_dial_event peer (some (a ∷ rest)) s = record s {
    pending_events = s.pending_events ++ (dial peer (a ∷ rest) ∷ []);
  }

  -- The body of the loop over due dials, for an entry that has left the heap.
  unfoldable pub dispatch_dial : ℕ → Behaviour B → Behaviour B
  dispatch_dial peer s =
      let popped : Behaviour B = record s { queued_dials = remove peer s.queued_dials } in
      if contains peer s.not_connected_peers
      then push_dial_event peer (get peer s.bootstrap_peers) popped
      else popped

  abbrev pub dispatch_due :
      (Behaviour B → Behaviour B) → Option (ℕ × List Delayed) → Behaviour B → Behaviour B
  dispatch_due next none s = s
  dispatch_due next (some (peer, rest)) s =
      next (dispatch_dial peer (record s { next_dial_attempts = rest }))

  -- The loop over due dials, on a bound on its rounds.
  unfoldable pub dispatch : (fuel now : ℕ) → Behaviour B → Behaviour B
  dispatch zero now s = s
  dispatch (suc fuel) now s = dispatch_due (dispatch fuel now) (pop_due now s.next_dial_attempts) s

  abbrev pub dispatch_all : ℕ → Behaviour B → Behaviour B
  dispatch_all now s = dispatch (length s.next_dial_attempts) now s

  abbrev pub arm_next_dial_timer : (fired : Bool) → List Delayed → Behaviour B → Behaviour B
  arm_next_dial_timer fired [] s = record s { next_dial_timer = none }
  arm_next_dial_timer fired (d ∷ ds) s = record s {
    next_dial_timer = if fired then none else some d.release_at;
  }

  -- The end of `poll`: the events of the loop, and otherwise the timer.
  abbrev pub finish : (fired : Bool) → List ToSwarm → Behaviour B → Option ToSwarm × Behaviour B
  finish fired [] s = (none, arm_next_dial_timer fired s.next_dial_attempts s)
  finish fired (e ∷ es) s = (some e, record s { pending_events = es })

  abbrev pub poll_dials : (now : ℕ) → (fired : Bool) → Behaviour B → Option ToSwarm × Behaviour B
  poll_dials now fired s = let s' = dispatch_all now s in finish fired s'.pending_events s'

  abbrev pub poll_announced :
      (now : ℕ) → (fired : Bool) → List ToSwarm → Behaviour B → Option ToSwarm × Behaviour B
  poll_announced now fired [] s = poll_dials now fired s
  poll_announced now fired (e ∷ es) s = (some e, record s { pending_events = es })

  abbrev pub poll_stream :
      (now : ℕ) → (fired : Bool) → StreamPoll → Behaviour B → Option ToSwarm × Behaviour B
  poll_stream now fired event s =
      let s' = on_announce now event s in
      if is_ready event
      then poll_announced now fired s'.pending_events s'
      else poll_dials now fired s'

  abbrev pub poll_pending :
      (now : ℕ)
      → (fired : Bool) → StreamPoll
      → List ToSwarm
      → Behaviour B
      → Option ToSwarm × Behaviour B
  poll_pending now fired event [] s = poll_stream now fired event s
  poll_pending now fired event (e ∷ es) s = (some e, record s { pending_events = es })

  -- The event that `poll` is ready with, if any, and the state after it.
  unfoldable pub poll :
      (now : ℕ) → (fired : Bool) → StreamPoll → Behaviour B → Option ToSwarm × Behaviour B
  poll now fired event s = poll_pending now fired event s.pending_events s

-- What the swarm calls: an event, or a poll at some instant.
pub data Call : Type 0 where
  swarm_event : (now : ℕ) → FromSwarm → Call
  polled : (now : ℕ) → (fired : Bool) → StreamPoll → Call

module _ {B : Type 0} (net : Network B) where
  abbrev pub apply : Call → Behaviour B → Behaviour B
  apply (swarm_event now e) s = on_swarm_event net now e s
  apply (polled now fired event) s = (poll net now fired event s).1

  unfoldable pub run : List Call → Behaviour B → Behaviour B
  run [] s = s
  run (c ∷ cs) s = run cs (apply c s)
