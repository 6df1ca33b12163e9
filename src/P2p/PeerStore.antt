-- ===== src/P2p/PeerStore.antt =====
-- transport/p2p/src/peer_store.rs: `NetworkPeerStore`. A peer and an address are opaque numbers, and
-- a set of addresses is a list read through membership.
use hopr_impls.Base.{
  ℕ, Bool, ◌||◌, Option, none, some, List, [], ◌∷◌, ◌++◌, Result, ok, err, if◌then◌else◌, ◌==◌,
}
use hopr_impls.Base.Keyed.{nat_key, get, insert}
use hopr_impls.Base.Keyed

pub data NetworkError : Type 0 where
  disallowed_operation_on_own_peer_id_error : NetworkError

pub record NetworkPeerStore : Type 0 where
  pub me : ℕ
  pub my_addresses : List ℕ
  pub addresses : List (ℕ × List ℕ)

unfoldable pub new : ℕ → List ℕ → NetworkPeerStore
new me mine = record { me = me; my_addresses = mine; addresses = [] }

abbrev pub is_some {ℓ} : {A : Type ℓ} → Option A → Bool
is_some none = Bool.false
is_some (some a) = Bool.true

unfoldable pub has : ℕ → NetworkPeerStore → Bool
has peer s = peer == s.me || is_some (get peer s.addresses)

-- The known addresses come first, then the new ones.
abbrev pub extended : Option (List ℕ) → List ℕ → List ℕ
extended none fresh = fresh
extended (some known) fresh = known ++ fresh

unfoldable pub add :
    ℕ → List ℕ → NetworkPeerStore → Result NetworkError (Unit {0}) × NetworkPeerStore
add peer fresh s = if peer == s.me then (err disallowed_operation_on_own_peer_id_error, s) else (
  ok tt,
  record s { addresses = insert peer (extended (get peer s.addresses) fresh) s.addresses },
)

unfoldable pub addresses_of : ℕ → NetworkPeerStore → Option (List ℕ)
addresses_of peer s = if peer == s.me then some s.my_addresses else get peer s.addresses

unfoldable pub remove : ℕ → NetworkPeerStore → Result NetworkError (Unit {0}) × NetworkPeerStore
remove peer s =
    if peer == s.me
    then (err disallowed_operation_on_own_peer_id_error, s)
    else (ok tt, record s { addresses = Keyed.remove peer s.addresses })

abbrev pub keys_of : List (ℕ × List ℕ) → List ℕ
keys_of [] = []
keys_of ((k, v) ∷ m) = k ∷ keys_of m

unfoldable pub iter_keys : NetworkPeerStore → List ℕ
iter_keys s = keys_of s.addresses
