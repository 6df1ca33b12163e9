-- ===== src/P2p/Discovery/Due.antt =====
-- A dial that is due is dispatched by the next poll that reaches the schedule.
use hopr_impls.Base.{
  ℕ, ◌≡◌, ◌≢◌, refl, sym, subst, ap, ◌∙◌, Bool, true, Option, none, some, List, [], ◌∷◌, ◌++◌,
  length, arith, Has, Has-append_left, Has-append_last, ◌⊎◌, inl, inr, if_lem, Bool-cases, ◌==◌,
  ==_iff,
}
use hopr_impls.Base.Keyed.{nat_key, get, remove}
use hopr_impls.P2p.Discovery.Defs.{
  Network, Delayed, ToSwarm, dial, Behaviour, contains, new, cancel_dial, is_nonempty,
}
use hopr_impls.P2p.Discovery.Poll.{
  stream_pending, on_announce, dispatch_dial, push_dial_event, dispatch_all, finish, poll,
  poll_pending, Call, run,
}
use hopr_impls.P2p.Discovery.Heap.{times}
use hopr_impls.P2p.Discovery.Dispatch.{dispatch_invariant, dispatch-finished}
use hopr_impls.P2p.Discovery.Scheduled.{IsScheduled}
use hopr_impls.P2p.Discovery.Schedule.{dispatch_dial-IsScheduled, run-IsScheduled}
use hopr_impls.P2p.Discovery.Order.{IsOrdered, dispatch_dial-IsOrdered, run-IsOrdered}
use hopr_impls.P2p.Discovery.Overdue.{IsDue, drop_dials-IsDue, first-IsDue}

module _ {B : Type 0} (net : Network B) (now q : ℕ) (addresses : List ℕ) where
  -- The dial of the peer is due or among the events.
  record IsServed (s : Behaviour B) : Type 0 where
    scheduled : IsScheduled net q s
    ordered : IsOrdered net s
    known : get q s.bootstrap_peers ≡ some addresses
    dialed : IsDue now q s.next_dial_attempts ⊎ Has (dial q addresses) s.pending_events

  own_round :
      (known : Option (List ℕ)) (s : Behaviour B)
      → known ≡ some addresses
      → is_nonempty known ≡ true
      → Has (dial q addresses) (push_dial_event net q known s).pending_events
  own_round none s h k = ground (arith, k)
  own_round (some []) s h k = ground (arith, k)
  own_round (some (a ∷ rest)) s h k =
      let same : a ∷ rest ≡ addresses = ground (arith, h) in
      subst (λ x. Has (dial q x) (s.pending_events ++ (dial q (a ∷ rest) ∷ []))) same
        (Has-append_last (dial q (a ∷ rest)) s.pending_events)

  other_round :
      (p : ℕ) (known : Option (List ℕ)) (s : Behaviour B)
      → p ≢ q
      → IsDue now q s.next_dial_attempts ⊎ Has (dial q addresses) s.pending_events
      → let s' = push_dial_event net p known s in
        IsDue now q s'.next_dial_attempts ⊎ Has (dial q addresses) s'.pending_events
  unfolding cancel_dial
  other_round p none s h (inl d) = inl (drop_dials-IsDue now p q s.next_dial_attempts h d)
  other_round p (some []) s h (inl d) = inl (drop_dials-IsDue now p q s.next_dial_attempts h d)
  other_round p (some (a ∷ rest)) s h (inl d) = inl d
  other_round p none s h (inr d) = inr d
  other_round p (some []) s h (inr d) = inr d
  other_round p (some (a ∷ rest)) s h (inr d) =
      inr (Has-append_left (dial q addresses) s.pending_events (dial p (a ∷ rest) ∷ []) d)

  push_event-known :
      (p : ℕ) (known : Option (List ℕ)) (s : Behaviour B)
      → (push_dial_event net p known s).bootstrap_peers ≡ s.bootstrap_peers
  unfolding cancel_dial
  push_event-known p none s = refl
  push_event-known p (some []) s = refl
  push_event-known p (some (a ∷ rest)) s = refl

  round-known :
      (p : ℕ) (s : Behaviour B) → (dispatch_dial net p s).bootstrap_peers ≡ s.bootstrap_peers
  unfolding dispatch_dial
  round-known p s =
      if_lem (λ (x : Behaviour B). x.bootstrap_peers ≡ s.bootstrap_peers)
        (contains p s.not_connected_peers)
        (λ _.
          push_event-known p (get p s.bootstrap_peers)
            (record s { queued_dials = remove p s.queued_dials }))
        (λ _. refl)

  abbrev Served : Behaviour B → Type 0
  Served s = IsDue now q s.next_dial_attempts ⊎ Has (dial q addresses) s.pending_events

  round-own :
      (t : ℕ) (rest : List Delayed) (s : Behaviour B)
      → IsServed s
      → s.next_dial_attempts ≡ record { release_at = t; item = q } ∷ rest
      → Served (dispatch_dial net q (record s { next_dial_attempts = rest }))
  unfolding dispatch_dial times
  round-own t rest s w e =
      let queued : contains q s.queued_dials ≡ true = ground (arith, w.scheduled.mirror, e) in
      if_lem Served (contains q s.not_connected_peers)
        (λ _. inr (
          own_round (get q s.bootstrap_peers)
            (record s { next_dial_attempts = rest; queued_dials = remove q s.queued_dials }) w.known
            (w.scheduled.known queued)))
        (λ h. ground (arith, h, w.scheduled.backed queued))

  round-other :
      (p t : ℕ) (rest : List Delayed) (s : Behaviour B)
      → p ≢ q
      → IsDue now q (record { release_at = t; item = p } ∷ rest)
        ⊎ Has (dial q addresses) s.pending_events
      → Served (dispatch_dial net p (record s { next_dial_attempts = rest }))
  unfolding dispatch_dial
  round-other p t rest s h (inl (inl k)) = elim (h k.0) [ ]
  round-other p t rest s h (inl (inr k)) =
      if_lem Served (contains p s.not_connected_peers)
        (λ _.
          other_round p (get p s.bootstrap_peers)
            (record s { next_dial_attempts = rest; queued_dials = remove p s.queued_dials }) h
            (inl k))
        (λ _. inl k)
  round-other p t rest s h (inr k) =
      if_lem Served (contains p s.not_connected_peers)
        (λ _.
          other_round p (get p s.bootstrap_peers)
            (record s { next_dial_attempts = rest; queued_dials = remove p s.queued_dials }) h
            (inr k))
        (λ _. inr k)

  round-IsServed :
      (p t : ℕ) (rest : List Delayed) (s : Behaviour B)
      → IsServed s
      → s.next_dial_attempts ≡ record { release_at = t; item = p } ∷ rest
      → IsServed (dispatch_dial net p (record s { next_dial_attempts = rest }))
  round-IsServed p t rest s w e = record {
    scheduled = dispatch_dial-IsScheduled net q p t rest s w.scheduled e;
    ordered = dispatch_dial-IsOrdered net p t rest s w.ordered e;
    known = ap (get q) (round-known p (record s { next_dial_attempts = rest })) ∙ w.known;
    dialed = elim (Bool-cases (p == q)) [
      | inl c ↦
          let h : p ≡ q = (==_iff p q).0 c in
          let at : s.next_dial_attempts ≡ record { release_at = t; item = q } ∷ rest =
            subst (λ x. s.next_dial_attempts ≡ record { release_at = t; item = x } ∷ rest) h e in
          subst (λ x. Served (dispatch_dial net x (record s { next_dial_attempts = rest }))) (sym h)
            (round-own t rest s w at)
      | inr c ↦
          round-other p t rest s (λ h. ground (arith, c, h))
            (subst (λ x. IsDue now q x ⊎ Has (dial q addresses) s.pending_events) e w.dialed)
    ];
  }

  all-IsServed : (s : Behaviour B) → IsServed s → IsServed (dispatch_all net now s)
  all-IsServed s =
      dispatch_invariant net IsServed now round-IsServed (length s.next_dial_attempts) s

  served_dialed :
      (s : Behaviour B)
      → IsServed s
      → Has (dial q addresses) (dispatch_all net now s).pending_events
  unfolding IsOrdered
  served_dialed s w =
      let s' = dispatch_all net now s in
      let w' = all-IsServed s w in
      elim w'.dialed [
        | inl d ↦
            elim (first-IsDue now q s'.next_dial_attempts w'.ordered
              (dispatch-finished net (length s.next_dial_attempts) now s (omega arith)) d) [ ]
        | inr h ↦ h
      ]

-- The event that a poll returns, before those that it leaves.
abbrev pub events_of : {B : Type 0} → Option ToSwarm × Behaviour B → List ToSwarm
events_of (none, s) = s.pending_events
events_of (some e, s) = e ∷ s.pending_events

finish-events :
    {B : Type 0} (net : Network B) (fired : Bool) (es : List ToSwarm) (s : Behaviour B)
    (e : ToSwarm)
    → s.pending_events ≡ es
    → Has e es
    → Has e (events_of (finish net fired es s))
finish-events net fired [] s e h k = elim k [ ]
finish-events net fired (x ∷ es) s e h k = k

module _ {B : Type 0} (net : Network B) (me q now : ℕ) (allow fired : Bool) (cs : List Call)
    (addresses : List ℕ) where
  -- After any sequence of calls, a poll that has no event left to return and gets none from the
  -- stream produces the dial of each peer whose scheduled dial is due, with the addresses that are
  -- known of it.
  pub poll-dials_due :
      let s = run net cs (new net me allow) in
      s.pending_events ≡ []
      → get q s.bootstrap_peers ≡ some addresses
      → IsDue now q s.next_dial_attempts
      → Has (dial q addresses) (events_of (poll net now fired stream_pending s))
  unfolding poll on_announce
  poll-dials_due h k d =
      let s = run net cs (new net me allow) in
      let s' = dispatch_all net now s in
      subst
        (λ es. Has (dial q addresses) (events_of (poll_pending net now fired stream_pending es s)))
        (sym h)
        (finish-events net fired s'.pending_events s' (dial q addresses) refl (
          served_dialed net now q addresses s (record {
            scheduled = run-IsScheduled net q me allow cs;
            ordered = run-IsOrdered net me allow cs;
            known = k;
            dialed = inl d;
          })))
