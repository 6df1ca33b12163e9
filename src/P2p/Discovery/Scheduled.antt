-- ===== src/P2p/Discovery/Scheduled.antt =====
-- What each change of the schedule of dials preserves for one peer.
use hopr_impls.Base.{
  ℕ, suc, ◌+◌, ◌≡◌, Bool, true, false, Option, none, some, arith, if◌then◌else◌, if_lem, not, ◌||◌,
  ◌-◌, ◌==◌, Bool-cases, inl, inr,
}
use hopr_impls.Base.Keyed.{nat_key, get, remove, get-insert, get-remove}
use hopr_impls.P2p.Discovery.Defs.{
  Network, or_ten_seconds, backoff_or_initial, count, Behaviour, contains, has_known_address,
  cancel_dial, schedule_dial_with, connection_established, connection_closed, dial_failure,
}
use hopr_impls.P2p.Discovery.Heap.{times, times-push_dial, times-drop_dials}

module _ {B : Type 0} (net : Network B) (q : ℕ) where
  -- What holds of one peer: it stands in the heap once if it is in the mirror and not at all
  -- otherwise, a scheduled peer has a dialable address and a back-off, a connected peer has none,
  -- and the node itself has no address.
  pub record IsScheduled (s : Behaviour B) : Type 0 where
    pub mirror : times q s.next_dial_attempts ≡ (if contains q s.queued_dials then 1 else 0)
    pub known : contains q s.queued_dials ≡ true → has_known_address net q s ≡ true
    pub backed : contains q s.queued_dials ≡ true → contains q s.not_connected_peers ≡ true
    pub idle : contains q s.connected_peers ≡ true → contains q s.not_connected_peers ≡ false

  pub cancel_dial-IsScheduled :
      (p : ℕ) (s : Behaviour B) → IsScheduled s → IsScheduled (cancel_dial net p s)
  unfolding cancel_dial
  cancel_dial-IsScheduled p s w = record {
    mirror =
        ground (
          arith,
          w.mirror,
          times-drop_dials p q s.next_dial_attempts,
          get-remove p q s.queued_dials,
        );
    known = λ h. ground (arith, w.known, get-remove p q s.queued_dials, h);
    backed = λ h.
        ground
          (arith, w.backed, get-remove p q s.queued_dials, get-remove p q s.not_connected_peers, h);
    idle = λ h. ground (arith, w.idle h, get-remove p q s.not_connected_peers);
  }

  pub schedule-IsScheduled :
      (now p : ℕ) (b : B) (s : Behaviour B)
      → contains p s.connected_peers ≡ false
      → IsScheduled s
      → IsScheduled (schedule_dial_with net now p b s)
  unfolding schedule_dial_with
  schedule-IsScheduled now p b s c w = elim (Bool-cases (contains p s.queued_dials)) [
    | inl e ↦ elim (Bool-cases (has_known_address net p s)) [
      | inl k ↦ rw (e, k) w
      | inr k ↦ rw (e, k) w
    ]
    | inr e ↦ elim (Bool-cases (has_known_address net p s)) [
      | inr k ↦ rw (e, k) w
      | inl k ↦
          rw (e, k)
            (record {
              mirror = ground (
                arith,
                e,
                w.mirror,
                times-push_dial q
                    (record { release_at = now + or_ten_seconds (net.next_backoff b).0; item = p })
                    s.next_dial_attempts,
                get-insert p q tt s.queued_dials,
              );
              known = λ h. ground (arith, k, w.known, get-insert p q tt s.queued_dials, h);
              backed = λ h. ground (
                arith,
                w.backed,
                get-insert p q tt s.queued_dials,
                get-insert p q (net.next_backoff b).1 s.not_connected_peers,
                h,
              );
              idle = λ h. ground (
                arith,
                c,
                w.idle,
                get-insert p q (net.next_backoff b).1 s.not_connected_peers,
                h,
              );
            })
    ]
  ]

  -- A peer in the schedule is dropped from it, and any other keeps what is known of it, when a
  -- connection of a peer is counted.
  pub established-IsScheduled :
      (p : ℕ) (s : Behaviour B) → IsScheduled s → IsScheduled (connection_established net p s)
  unfolding connection_established cancel_dial
  established-IsScheduled p s w = record {
    mirror = (cancel_dial-IsScheduled p s w).mirror;
    known = (cancel_dial-IsScheduled p s w).known;
    backed = (cancel_dial-IsScheduled p s w).backed;
    idle = λ h. ground (
      arith,
      w.idle,
      get-insert p q (suc (count net (get p s.connected_peers))) s.connected_peers,
      get-remove p q s.not_connected_peers,
      h,
    );
  }

  gone-IsScheduled :
      (p : ℕ) (s : Behaviour B)
      → IsScheduled s
      → IsScheduled (record s { connected_peers = remove p s.connected_peers })
  gone-IsScheduled p s w = record {
    mirror = w.mirror;
    known = w.known;
    backed = w.backed;
    idle = λ h. ground (arith, w.idle, get-remove p q s.connected_peers, h);
  }

  pub closed-IsScheduled :
      (now p : ℕ) (s : Behaviour B) → IsScheduled s → IsScheduled (connection_closed net now p s)
  unfolding connection_closed
  closed-IsScheduled now p s w =
      let left = count net (get p s.connected_peers) - 1 in
      if_lem IsScheduled (left == 0)
        (λ _.
          if_lem IsScheduled (contains p s.not_connected_peers) (λ _. gone-IsScheduled p s w)
            (λ _.
              schedule-IsScheduled now p net.initial_backoff
                (record s { connected_peers = remove p s.connected_peers })
                (ground (arith, get-remove p p s.connected_peers)) (gone-IsScheduled p s w)))
        (λ h. record {
          mirror = w.mirror;
          known = w.known;
          backed = w.backed;
          idle = λ k. ground (arith, w.idle, get-insert p q left s.connected_peers, h, k);
        })

  pub failure-IsScheduled :
      (now : ℕ) (p : Option ℕ) (b : Bool) (s : Behaviour B)
      → IsScheduled s
      → IsScheduled (dial_failure net now p b s)
  unfolding dial_failure
  failure-IsScheduled now none b s w = w
  failure-IsScheduled now (some p) b s w =
      if_lem IsScheduled (contains p s.connected_peers || b || not (has_known_address net p s))
        (λ _. cancel_dial-IsScheduled p s w)
        (λ c.
          if_lem IsScheduled (not (contains p s.queued_dials))
            (λ h.
              schedule-IsScheduled now p (backoff_or_initial net (get p s.not_connected_peers))
                (record s { not_connected_peers = remove p s.not_connected_peers })
                (ground (arith, c))
                (record {
                  mirror = w.mirror;
                  known = w.known;
                  backed =
                      λ k. ground (arith, w.backed, get-remove p q s.not_connected_peers, h, k);
                  idle = λ k. ground (arith, w.idle, get-remove p q s.not_connected_peers, k);
                }))
            (λ _. w))
