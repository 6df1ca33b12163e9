-- ===== src/P2p/Discovery/Tests.antt =====
-- The schedule of dials at concrete inputs: a node 1 that hears of the peers 2 and 3. An address is
-- public if it is 100 or more, and a back-off doubles.
use hopr_impls.Base.{
  ℕ, ◌*◌, ◌≤◌, ◌≡◌, ◌↔◌, refl, true, false, some, List, [], ◌∷◌, All, Has, keep, leb, arith, inl,
}
use hopr_impls.Base.Keyed.{nat_key, get, insert, remove}
use hopr_impls.P2p.Discovery.Defs.{
  Network, dial, Behaviour, contains, new, has_known_address, failed,
  handle_pending_outbound_connection, schedule_dial_with, push_dial, dialable_addresses,
}
use hopr_impls.P2p.Discovery.Poll.{
  stream_pending, announce, Call, swarm_event, polled, run, poll, on_announce,
}
use hopr_impls.P2p.Discovery.Heap.{times}
use hopr_impls.P2p.Discovery.Runs.{Returns}
use hopr_impls.P2p.Discovery.Schedule.{scheduled_once}
use hopr_impls.P2p.Discovery.Addresses.{IsAllowed, IsDialable, poll-IsDialable}
use hopr_impls.P2p.Discovery.Due.{events_of, poll-dials_due}

abbrev doubling : Network ℕ
doubling = record {
  is_public_address = λ a. leb 100 a;
  initial_backoff = 3;
  next_backoff = λ b. (some b, 2 * b);
}

-- Two peers are announced, twice the first one, and a connection of the second one fails.
abbrev calls : List Call
calls =
    polled 0 false (announce 2 (120 ∷ 20 ∷ []))
    ∷ polled 0 false stream_pending
    ∷ polled 1 false (announce 2 (121 ∷ []))
    ∷ polled 2 false (announce 3 (130 ∷ 131 ∷ []))
    ∷ polled 2 false stream_pending
    ∷ swarm_event 2 (failed (some 3) false)
    ∷ polled 3 false stream_pending
    ∷ []

abbrev node : Behaviour ℕ
node = run doubling calls (new doubling 1 false)

scheduled_once_example :
    (times 3 node.next_dial_attempts ≤ 1)
    × ((contains 3 node.queued_dials ≡ true) ↔ (times 3 node.next_dial_attempts ≡ 1))
    × (times 3 node.next_dial_attempts ≡ 1
        → (has_known_address doubling 3 node ≡ true)
          × (contains 3 node.not_connected_peers ≡ true)
          × (contains 3 node.connected_peers ≡ false))
scheduled_once_example = scheduled_once doubling 3 1 false calls

poll-IsDialable_example :
    Returns (IsDialable doubling 1 false) (poll doubling 9 false stream_pending node).0
    × All (IsAllowed doubling 1 false) (handle_pending_outbound_connection doubling (some 2) node)
poll-IsDialable_example = poll-IsDialable doubling 1 false calls 9 false stream_pending (some 2)

abbrev two_addresses : List Call
two_addresses = polled 2 false (announce 3 (130 ∷ 131 ∷ [])) ∷ polled 3 false stream_pending ∷ []

poll-dials_due_example : Has (dial 3 (130 ∷ 131 ∷ [])) (
    events_of
      (poll doubling 5 false stream_pending (run doubling two_addresses (new doubling 1 false))))
unfolding run poll new on_announce schedule_dial_with push_dial dialable_addresses get insert remove
    keep
poll-dials_due_example =
    poll-dials_due doubling 1 3 5 false false two_addresses (130 ∷ 131 ∷ []) refl refl
      (inl (refl, omega arith))
