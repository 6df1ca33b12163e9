-- ===== src/P2p/Discovery/Defs.antt =====
-- transport/p2p/src/behavior/discovery.rs: the state of `Behaviour` and its schedule of dials. Peers
-- and addresses are opaque numbers, an instant is a number, and the current one is an argument,
-- `now`. A `HashMap` or `HashSet` is an association list, and the binary heap is the list of its
-- entries from the earliest one. The back-off of the crate `backon` and the test for a public
-- address, neither of which the repository contains, are an argument, `Network`.
use hopr_impls.Base.{
  ℕ, suc, ◌+◌, ◌-◌, Bool, true, false, not, ◌||◌, Option, none, some, List, [], ◌∷◌, if◌then◌else◌,
  leb, ◌==◌, keep,
}
use hopr_impls.Base.Keyed.{nat_key, get, insert, remove}

pub record Network (B : Type 0) : Type 0 where
  pub is_public_address : ℕ → Bool
  pub initial_backoff : B
  -- `Iterator::next` of a back-off: the wait, and the back-off after it
  pub next_backoff : B → Option ℕ × B

pub record Delayed : Type 0 where
  pub release_at : ℕ
  pub item : ℕ

-- `ToSwarm`
pub data ToSwarm : Type 0 where
  new_external_addr_of_peer : (peer address : ℕ) → ToSwarm
  dial : (peer : ℕ) → (addresses : List ℕ) → ToSwarm

pub record Behaviour (B : Type 0) : Type 0 where
  pub me : ℕ
  pub allow_private_addresses : Bool
  pub pending_events : List ToSwarm
  pub bootstrap_peers : List (ℕ × List ℕ)
  pub connected_peers : List (ℕ × ℕ)
  pub next_dial_attempts : List Delayed
  pub queued_dials : List (ℕ × Unit {0})
  pub not_connected_peers : List (ℕ × B)
  -- the instant that the timer is armed for
  pub next_dial_timer : Option ℕ

abbrev pub contains : {V : Type 0} → ℕ → List (ℕ × V) → Bool
contains k m = elim (get k m) [ none ↦ false | some v ↦ true ]

-- The push of the heap; the order of entries released at one instant is not fixed by it.
unfoldable pub push_dial : Delayed → List Delayed → List Delayed
push_dial d [] = d ∷ []
push_dial d (e ∷ es) = if leb d.release_at e.release_at then d ∷ e ∷ es else e ∷ push_dial d es

-- `retain` of the entries that are not the peer's
unfoldable pub drop_dials : ℕ → List Delayed → List Delayed
drop_dials peer [] = []
drop_dials peer (d ∷ ds) = if d.item == peer then drop_dials peer ds else d ∷ drop_dials peer ds

abbrev pub is_nonempty : Option (List ℕ) → Bool
is_nonempty none = false
is_nonempty (some []) = false
is_nonempty (some (a ∷ rest)) = true

abbrev pub or_empty : Option (List ℕ) → List ℕ
or_empty none = []
or_empty (some addresses) = addresses

abbrev pub or_ten_seconds : Option ℕ → ℕ
or_ten_seconds none = 10000
or_ten_seconds (some wait) = wait

module _ {B : Type 0} (net : Network B) where
  unfoldable pub new : ℕ → Bool → Behaviour B
  new me allow_private = record {
    me = me;
    allow_private_addresses = allow_private;
    pending_events = [];
    bootstrap_peers = [];
    connected_peers = [];
    next_dial_attempts = [];
    queued_dials = [];
    not_connected_peers = [];
    next_dial_timer = none;
  }

  unfoldable pub dialable_addresses : Behaviour B → List ℕ → List ℕ
  dialable_addresses s =
      keep (λ address. s.allow_private_addresses || net.is_public_address address)

  abbrev pub has_known_address : ℕ → Behaviour B → Bool
  has_known_address peer s = is_nonempty (get peer s.bootstrap_peers)

  abbrev pub has_scheduled_dial : ℕ → Behaviour B → Bool
  has_scheduled_dial peer s = contains peer s.queued_dials

  unfoldable pub cancel_dial : ℕ → Behaviour B → Behaviour B
  cancel_dial peer s = record s {
    not_connected_peers = remove peer s.not_connected_peers;
    queued_dials = remove peer s.queued_dials;
    next_dial_attempts = drop_dials peer s.next_dial_attempts;
  }

  unfoldable pub schedule_dial_with : (now peer : ℕ) → B → Behaviour B → Behaviour B
  schedule_dial_with now peer backoff s =
      if not (has_known_address peer s) || has_scheduled_dial peer s then s else record s {
        not_connected_peers = insert peer (net.next_backoff backoff).1 s.not_connected_peers;
        queued_dials = insert peer tt s.queued_dials;
        next_dial_attempts =
            push_dial
              (record {
                release_at = now + or_ten_seconds (net.next_backoff backoff).0;
                item = peer;
              })
              s.next_dial_attempts;
      }

  abbrev pub count : Option ℕ → ℕ
  count none = 0
  count (some n) = n

  unfoldable pub connection_established : ℕ → Behaviour B → Behaviour B
  connection_established peer s = cancel_dial peer (record s {
    connected_peers = insert peer (suc (count (get peer s.connected_peers))) s.connected_peers;
  })

  unfoldable pub connection_closed : (now peer : ℕ) → Behaviour B → Behaviour B
  connection_closed now peer s =
      let left = count (get peer s.connected_peers) - 1 in
      let gone : Behaviour B = record s { connected_peers = remove peer s.connected_peers } in
      if left == 0
      then (if contains peer s.not_connected_peers
          then gone
          else schedule_dial_with now peer net.initial_backoff gone)
      else record s { connected_peers = insert peer left s.connected_peers }

  abbrev pub backoff_or_initial : Option B → B
  backoff_or_initial none = net.initial_backoff
  backoff_or_initial (some b) = b

  -- A failed dial; the second argument tells whether there were no addresses to dial.
  unfoldable pub dial_failure : (now : ℕ) → (peer : Option ℕ) → Bool → Behaviour B → Behaviour B
  dial_failure now none no_addresses s = s
  dial_failure now (some peer) no_addresses s =
      if contains peer s.connected_peers || no_addresses || not (has_known_address peer s)
      then cancel_dial peer s
      else if not (has_scheduled_dial peer s)
      then schedule_dial_with now peer (backoff_or_initial (get peer s.not_connected_peers))
          (record s { not_connected_peers = remove peer s.not_connected_peers })
      else s

  -- `handle_pending_outbound_connection`
  unfoldable pub handle_pending_outbound_connection : Option ℕ → Behaviour B → List ℕ
  handle_pending_outbound_connection none s = []
  handle_pending_outbound_connection (some peer) s = or_empty (get peer s.bootstrap_peers)

-- The events of `FromSwarm` that change the state, and any other one.
pub data FromSwarm : Type 0 where
  established closed : ℕ → FromSwarm
  failed : (peer : Option ℕ) → (no_addresses : Bool) → FromSwarm
  other : FromSwarm

module _ {B : Type 0} (net : Network B) where
  unfoldable pub on_swarm_event : ℕ → FromSwarm → Behaviour B → Behaviour B
  on_swarm_event now (established peer) s = connection_established net peer s
  on_swarm_event now (closed peer) s = connection_closed net now peer s
  on_swarm_event now (failed peer no_addresses) s = dial_failure net now peer no_addresses s
  on_swarm_event now other s = s
