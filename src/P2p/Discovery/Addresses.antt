-- ===== src/P2p/Discovery/Addresses.antt =====
-- The addresses that the behaviour stores and dials.
use hopr_impls.Base.{
  ℕ, ◌≡◌, ◌≢◌, refl, Bool, true, ◌||◌, ◌-◌, not, Option, none, some, List, [], ◌∷◌, ◌++◌, map, keep,
  arith, All, All-append, sym, subst, Bool-cases, ==_iff, keep-All, if_lem, ◌==◌, inl, inr,
}
use hopr_impls.Base.Keyed.{nat_key, get, insert, remove, get-insert}
use hopr_impls.P2p.Discovery.Defs.{
  Network, Delayed, ToSwarm, new_external_addr_of_peer, dial, Behaviour, contains,
  dialable_addresses, or_empty, handle_pending_outbound_connection, count, cancel_dial,
  schedule_dial_with, new, has_known_address, has_scheduled_dial, connection_established,
  connection_closed, dial_failure, backoff_or_initial, FromSwarm, established, closed, failed,
  other, on_swarm_event,
}
use hopr_impls.P2p.Discovery.Poll.{
  StreamPoll, stream_pending, stream_end, announce, on_announce, learn, dispatch_dial,
  push_dial_event, Call, poll, run,
}
use hopr_impls.P2p.Discovery.Runs.{Returns, run_invariant, poll-Returns}

module _ {B : Type 0} (net : Network B) (me : ℕ) (allow : Bool) where
  -- An address that the node may dial.
  abbrev pub IsAllowed : ℕ → Type 0
  IsAllowed a = (allow || net.is_public_address a) ≡ true

  -- Addresses of another peer that may be dialed, at least one.
  abbrev pub IsTarget : ℕ → List ℕ → Type 0
  IsTarget p addresses = (p ≢ me) × (addresses ≢ []) × All IsAllowed addresses

  abbrev pub IsDialable : ToSwarm → Type 0
  IsDialable (new_external_addr_of_peer p a) = (p ≢ me) × IsAllowed a
  IsDialable (dial p addresses) = IsTarget p addresses

  abbrev IsSafe : Behaviour B → Type 0
  IsSafe s =
      (s.me ≡ me)
      × (s.allow_private_addresses ≡ allow)
      × ((p : ℕ) (addresses : List ℕ)
          → get p s.bootstrap_peers ≡ some addresses
          → IsTarget p addresses)
      × All IsDialable s.pending_events

  schedule-IsSafe :
      (now p : ℕ) (b : B) (s : Behaviour B) → IsSafe s → IsSafe (schedule_dial_with net now p b s)
  unfolding schedule_dial_with
  schedule-IsSafe now p b s w =
      if_lem IsSafe (not (has_known_address net p s) || has_scheduled_dial net p s) (λ _. w)
        (λ _. w)

  event-IsSafe :
      (now : ℕ) (e : FromSwarm) (s : Behaviour B) → IsSafe s → IsSafe (on_swarm_event net now e s)
  unfolding on_swarm_event connection_established connection_closed dial_failure cancel_dial
  event-IsSafe now (established p) s w = w
  event-IsSafe now other s w = w
  event-IsSafe now (failed none b) s w = w
  event-IsSafe now (failed (some p) b) s w =
      if_lem IsSafe (contains p s.connected_peers || b || not (has_known_address net p s)) (λ _. w)
        (λ _.
          if_lem IsSafe (not (contains p s.queued_dials))
            (λ _.
              schedule-IsSafe now p (backoff_or_initial net (get p s.not_connected_peers))
                (record s { not_connected_peers = remove p s.not_connected_peers }) w)
            (λ _. w))
  event-IsSafe now (closed p) s w =
      if_lem IsSafe (count net (get p s.connected_peers) - 1 == 0)
        (λ _.
          if_lem IsSafe (contains p s.not_connected_peers) (λ _. w)
            (λ _.
              schedule-IsSafe now p net.initial_backoff
                (record s { connected_peers = remove p s.connected_peers }) w))
        (λ _. w)

  map-IsDialable :
      (p : ℕ) (addresses : List ℕ)
      → p ≢ me
      → All IsAllowed addresses
      → All IsDialable (map (new_external_addr_of_peer p) addresses)
  map-IsDialable p [] h l = tt
  map-IsDialable p (a ∷ rest) h l = ((h, l.0), map-IsDialable p rest h l.1)

  insert-IsTarget :
      (p : ℕ) (addresses : List ℕ) (m : List (ℕ × List ℕ))
      → IsTarget p addresses
      → ((q : ℕ) (l : List ℕ) → get q m ≡ some l → IsTarget q l)
      → (q : ℕ) (l : List ℕ) → get q (insert p addresses m) ≡ some l
      → IsTarget q l
  insert-IsTarget p addresses m w k q l h = elim (Bool-cases (p == q)) [
    | inl e ↦
        let at : p ≡ q = (==_iff p q).0 e in
        let same : addresses ≡ l = ground (arith, get-insert p q addresses m, e, h) in
        subst (λ x. IsTarget x l) at (subst (IsTarget p) same w)
    | inr e ↦ k q l (ground (arith, get-insert p q addresses m, e, h))
  ]

  learn-IsSafe :
      (now p : ℕ) (addresses : List ℕ) (s : Behaviour B)
      → p ≢ me
      → All IsAllowed addresses
      → IsSafe s
      → IsSafe (learn net now p addresses s)
  learn-IsSafe now p [] s h l w = w
  learn-IsSafe now p (a ∷ rest) s h l w =
      let known : Behaviour B = record s {
        bootstrap_peers = insert p (a ∷ rest) s.bootstrap_peers;
      } in
      let learnt : IsSafe known =
        (w.0, w.1, insert-IsTarget p (a ∷ rest) s.bootstrap_peers (h, (λ e. cc), l) w.2, w.3) in
      if_lem IsSafe (contains p s.connected_peers || contains p s.not_connected_peers) (λ _. learnt)
        (λ _. schedule-IsSafe now p net.initial_backoff known learnt)

  dialable-IsAllowed :
      (s : Behaviour B) (addresses : List ℕ)
      → s.allow_private_addresses ≡ allow
      → All IsAllowed (dialable_addresses net s addresses)
  unfolding dialable_addresses
  dialable-IsAllowed s addresses h =
      subst (λ x. All IsAllowed (keep (λ a. x || net.is_public_address a) addresses)) (sym h)
        (keep-All (λ a. allow || net.is_public_address a) addresses)

  announce-IsSafe :
      (now : ℕ) (event : StreamPoll) (s : Behaviour B)
      → IsSafe s
      → IsSafe (on_announce net now event s)
  unfolding on_announce
  announce-IsSafe now stream_pending s w = w
  announce-IsSafe now stream_end s w = w
  announce-IsSafe now (announce p addresses) s w =
      let dialable = dialable_addresses net s addresses in
      let allowed = dialable-IsAllowed s addresses w.1 in
      if_lem IsSafe (p == s.me) (λ _. w)
        (λ h.
          let apart : p ≢ me = λ e. ground (arith, h, e, w.0) in
          learn-IsSafe now p dialable
            (record s {
              pending_events = s.pending_events ++ map (new_external_addr_of_peer p) dialable;
            })
            apart allowed
            (
              w.0,
              w.1,
              w.2,
              All-append IsDialable s.pending_events (map (new_external_addr_of_peer p) dialable)
                  w.3 (map-IsDialable p dialable apart allowed),
            ))

  push_event-IsSafe :
      (p : ℕ) (known : Option (List ℕ)) (s : Behaviour B)
      → get p s.bootstrap_peers ≡ known
      → IsSafe s
      → IsSafe (push_dial_event net p known s)
  unfolding cancel_dial
  push_event-IsSafe p none s h w = w
  push_event-IsSafe p (some []) s h w = w
  push_event-IsSafe p (some (a ∷ rest)) s h w = (
    w.0,
    w.1,
    w.2,
    All-append IsDialable s.pending_events (dial p (a ∷ rest) ∷ []) w.3 (w.2 p (a ∷ rest) h, tt),
  )

  dispatch_dial-IsSafe :
      (p t : ℕ) (rest : List Delayed) (s : Behaviour B)
      → IsSafe s
      → s.next_dial_attempts ≡ record { release_at = t; item = p } ∷ rest
      → IsSafe (dispatch_dial net p (record s { next_dial_attempts = rest }))
  unfolding dispatch_dial
  dispatch_dial-IsSafe p t rest s w e =
      if_lem IsSafe (contains p s.not_connected_peers)
        (λ _.
          push_event-IsSafe p (get p s.bootstrap_peers)
            (record s { next_dial_attempts = rest; queued_dials = remove p s.queued_dials }) refl w)
        (λ _. w)

  init-IsSafe : IsSafe (new net me allow)
  unfolding new get
  init-IsSafe = (refl, refl, (λ p l h. cc), tt)

  pop-IsSafe :
      (e : ToSwarm) (es : List ToSwarm) (s : Behaviour B)
      → s.pending_events ≡ e ∷ es
      → IsSafe s
      → IsSafe (record s { pending_events = es }) × IsDialable e
  pop-IsSafe e es s h w =
      let all : All IsDialable (e ∷ es) = subst (All IsDialable) h w.3 in
      ((w.0, w.1, w.2, all.1), all.0)

  run-IsSafe : (cs : List Call) → IsSafe (run net cs (new net me allow))
  run-IsSafe cs =
      run_invariant net IsSafe IsDialable event-IsSafe announce-IsSafe dispatch_dial-IsSafe
        pop-IsSafe (λ t s w. w) cs (new net me allow) init-IsSafe

  or_empty-IsAllowed :
      (p : ℕ) (known : Option (List ℕ))
      → ((l : List ℕ) → known ≡ some l → IsTarget p l)
      → All IsAllowed (or_empty known)
  or_empty-IsAllowed p none h = tt
  or_empty-IsAllowed p (some l) h = (h l refl).2

  outbound-IsAllowed :
      (maybe_peer : Option ℕ) (s : Behaviour B)
      → IsSafe s
      → All IsAllowed (handle_pending_outbound_connection net maybe_peer s)
  unfolding handle_pending_outbound_connection
  outbound-IsAllowed none s w = tt
  outbound-IsAllowed (some p) s w = or_empty-IsAllowed p (get p s.bootstrap_peers) (w.2 p)

  -- After any sequence of calls, what `poll` returns concerns another peer than the node itself: an
  -- external address is one that may be dialed, which a private one may only if the node was made
  -- to allow it, and a dial has at least one address and only such. The addresses given for an
  -- outbound connection are such, too.
  pub poll-IsDialable :
      (cs : List Call) (now : ℕ) (fired : Bool) (event : StreamPoll) (maybe_peer : Option ℕ)
      → let s = run net cs (new net me allow) in
        Returns IsDialable (poll net now fired event s).0
        × All IsAllowed (handle_pending_outbound_connection net maybe_peer s)
  poll-IsDialable cs now fired event maybe_peer =
      let s = run net cs (new net me allow) in
      (
        poll-Returns net IsSafe IsDialable event-IsSafe announce-IsSafe dispatch_dial-IsSafe
            pop-IsSafe (λ t s w. w) now fired event s (run-IsSafe cs),
        outbound-IsAllowed maybe_peer s (run-IsSafe cs),
      )
