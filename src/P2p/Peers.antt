-- ===== src/P2p/Peers.antt =====
-- The peer store as a map from peers to addresses, with the node itself apart.
use hopr_impls.Base.{
  ℕ, ◌≡◌, ◌≢◌, refl, false, none, some, List, [], ◌∷◌, ok, err, arith, if◌then◌else◌, ◌==◌,
}
use hopr_impls.Base.Keyed.{nat_key, get, get-insert, get-remove}
use hopr_impls.P2p.PeerStore.{
  disallowed_operation_on_own_peer_id_error, NetworkPeerStore, has, is_some, extended, add,
  addresses_of, remove, new,
}

-- A history of calls on the store.
pub data Call : Type 0 where
  added : ℕ → List ℕ → Call
  removed : ℕ → Call

abbrev pub apply : Call → NetworkPeerStore → NetworkPeerStore
apply (added peer fresh) s = (add peer fresh s).1
apply (removed peer) s = (remove peer s).1

unfoldable pub run : List Call → NetworkPeerStore → NetworkPeerStore
run [] s = s
run (c ∷ cs) s = run cs (apply c s)

-- The node itself never has an entry of its own, and keeps its name and addresses.
pub record IsApart (me : ℕ) (mine : List ℕ) (s : NetworkPeerStore) : Type 0 where
  pub name : s.me ≡ me
  pub own : s.my_addresses ≡ mine
  pub apart : get me s.addresses ≡ none

apply-IsApart :
    (me : ℕ) (mine : List ℕ) (c : Call) (s : NetworkPeerStore)
    → IsApart me mine s
    → IsApart me mine (apply c s)
unfolding add remove
apply-IsApart me mine (added peer fresh) s a = record {
  name = ground (arith, a.name);
  own = ground (arith, a.own);
  apart = ground (
    arith,
    a.apart,
    a.name,
    get-insert peer me (extended (get peer s.addresses) fresh) s.addresses,
  );
}
apply-IsApart me mine (removed peer) s a = record {
  name = ground (arith, a.name);
  own = ground (arith, a.own);
  apart = ground (arith, a.apart, a.name, get-remove peer me s.addresses);
}

run-IsApart :
    (me : ℕ) (mine : List ℕ) (cs : List Call) (s : NetworkPeerStore)
    → IsApart me mine s
    → IsApart me mine (run cs s)
unfolding run
run-IsApart me mine [] s a = a
run-IsApart me mine (c ∷ cs) s a = run-IsApart me mine cs (apply c s) (apply-IsApart me mine c s a)

-- After any history of calls on a new store the node itself is known under its own addresses and
-- has no entry in the map, and calls to add or remove it are refused and change nothing.
pub own_peer_lem :
    (me : ℕ) (mine : List ℕ) (cs : List Call) (fresh : List ℕ)
    → let s = run cs (new me mine) in
      (addresses_of me s ≡ some mine)
      × (get me s.addresses ≡ none)
      × (add me fresh s ≡ (err disallowed_operation_on_own_peer_id_error, s))
      × (remove me s ≡ (err disallowed_operation_on_own_peer_id_error, s))
unfolding addresses_of add remove new get
own_peer_lem me mine cs fresh =
    let a : IsApart me mine (run cs (new me mine)) =
      run-IsApart me mine cs (new me mine) (record { name = refl; own = refl; apart = refl }) in
    (ground (arith, a.name, a.own), a.apart, ground (arith, a.name), ground (arith, a.name))

-- Adding another peer succeeds and extends what is known of it with the addresses given; every other
-- peer is known as before, and removing it afterwards leaves nothing of it.
pub addresses_of-add :
    (peer other : ℕ) (fresh : List ℕ) (s : NetworkPeerStore)
    → peer ≢ s.me
    → let s' = (add peer fresh s).1 in
      ((add peer fresh s).0 ≡ ok tt)
      × (addresses_of other s' ≡ (
          if peer == other
          then some (extended (addresses_of peer s) fresh)
          else addresses_of other s))
      × (has peer (remove peer s').1 ≡ false)
unfolding add addresses_of remove has
addresses_of-add peer other fresh s ne = (
  ground arith,
  ground (arith, get-insert peer other (extended (get peer s.addresses) fresh) s.addresses),
  ground (arith, get-remove peer peer (add peer fresh s).1.addresses),
)

-- A peer is present exactly if addresses of it can be had.
pub has-addresses_of :
    (peer : ℕ) (s : NetworkPeerStore) → has peer s ≡ is_some (addresses_of peer s)
unfolding has addresses_of
has-addresses_of peer s = ground arith
