-- ===== src/P2p/Liveness.antt =====
-- transport/p2p/src/liveness.rs: `LivenessRegistry` and `LivenessStream`. A flag shared by `Arc` is
-- a handle into `flags`, and `next_flag` is the next allocation. What the stream inside does when
-- it is polled is an argument; every poll of the four is guarded alike.
use hopr_impls.Base.{
  ℕ, suc, Bool, true, false, Option, none, some, List, [], Result, err, if◌then◌else◌,
}
use hopr_impls.Base.Keyed.{nat_key, get, insert}
use hopr_impls.Base.Keyed

pub record LivenessRegistry : Type 0 where
  pub peers : List (ℕ × ℕ)
  pub flags : List (ℕ × Bool)
  pub next_flag : ℕ

-- `LivenessRegistry::default`
abbrev pub default_registry : LivenessRegistry
default_registry = record { peers = []; flags = []; next_flag = 0 }

abbrev pub connected_entry : ℕ → Option ℕ → LivenessRegistry → ℕ × LivenessRegistry
connected_entry peer (some flag) r = (flag, r)
connected_entry peer none r = (
  r.next_flag,
  record {
    peers = insert peer r.next_flag r.peers;
    flags = insert r.next_flag true r.flags;
    next_flag = suc r.next_flag;
  },
)

unfoldable pub get_or_create_connected : ℕ → LivenessRegistry → ℕ × LivenessRegistry
get_or_create_connected peer r = connected_entry peer (get peer r.peers) r

unfoldable pub registered : ℕ → LivenessRegistry → Option ℕ
registered peer r = get peer r.peers

abbrev pub remove_entry : ℕ → Option ℕ → LivenessRegistry → LivenessRegistry
remove_entry peer none r = r
remove_entry peer (some flag) r = record r {
  peers = Keyed.remove peer r.peers;
  flags = insert flag false r.flags;
}

unfoldable pub remove : ℕ → LivenessRegistry → LivenessRegistry
remove peer r = remove_entry peer (get peer r.peers) r

abbrev pub or_false : Option Bool → Bool
or_false none = false
or_false (some b) = b

unfoldable pub is_alive : ℕ → LivenessRegistry → Bool
is_alive flag r = or_false (get flag r.flags)

pub data IoError : Type 0 where
  connection_aborted : IoError
  inner_error : ℕ → IoError

pub data Poll (A : Type 0) : Type 0 where
  pending : Poll A
  ready : Result IoError A → Poll A

pub record LivenessStream (S : Type 0) : Type 0 where
  pub inner : S
  pub alive : ℕ

module _ {S A : Type 0} where
  -- `poll_read`, `poll_write`, `poll_flush`, `poll_close`: the flag is read first.
  unfoldable pub poll :
      (S → Poll A × S) → LivenessRegistry → LivenessStream S → Poll A × LivenessStream S
  poll inner_poll r s =
      if is_alive s.alive r
      then ((inner_poll s.inner).0, record s { inner = (inner_poll s.inner).1 })
      else (ready (err connection_aborted), s)
