-- ===== src/P2p/Tests.antt =====
-- The peer store and the liveness flags at concrete inputs.
use hopr_impls.Base.{ℕ, ◌≡◌, none, some, List, [], ◌∷◌, err}
use hopr_impls.Base.Keyed.{nat_key, get}
use hopr_impls.P2p.PeerStore
use hopr_impls.P2p.PeerStore.{
  NetworkPeerStore, disallowed_operation_on_own_peer_id_error, add, addresses_of, extended, has,
}
use hopr_impls.P2p.Peers.{Call, added, removed, own_peer_lem, addresses_of-add}
use hopr_impls.P2p.Peers
use hopr_impls.P2p.Liveness.{
  default_registry, get_or_create_connected, remove, connection_aborted, Poll, pending, ready,
  LivenessStream, poll,
}
use hopr_impls.P2p.Flags.{connect, disconnect, poll-aborted, poll-inner}
use hopr_impls.P2p.Flags

abbrev calls : List Call
calls = added 2 (20 ∷ []) ∷ removed 1 ∷ added 3 (30 ∷ []) ∷ removed 2 ∷ []

own_peer_lem_example :
    let s = Peers.run calls (PeerStore.new 1 (10 ∷ [])) in
    (addresses_of 1 s ≡ some (10 ∷ []))
    × (get 1 s.addresses ≡ none)
    × (add 1 (11 ∷ []) s ≡ (err disallowed_operation_on_own_peer_id_error, s))
    × (PeerStore.remove 1 s ≡ (err disallowed_operation_on_own_peer_id_error, s))
own_peer_lem_example = own_peer_lem 1 (10 ∷ []) calls (11 ∷ [])

abbrev peers : NetworkPeerStore
peers = record { me = 1; my_addresses = 10 ∷ []; addresses = (2, 20 ∷ []) ∷ [] }

abbrev wait : ℕ → Poll ℕ × ℕ
wait s = (pending, s)

poll-aborted_example :
    let (f, r) = get_or_create_connected 7 (Flags.run (connect 6 ∷ []) default_registry) in
    let stream : LivenessStream ℕ = record { inner = 0; alive = f } in
    poll wait (Flags.run (connect 7 ∷ []) (remove 7 r)) stream
    ≡ (ready (err connection_aborted), stream)
poll-aborted_example = poll-aborted wait (connect 6 ∷ []) (connect 7 ∷ []) 7 0
