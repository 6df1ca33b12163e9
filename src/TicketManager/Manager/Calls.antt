-- ===== src/TicketManager/Manager/Calls.antt =====
-- ticket-manager/src/manager.rs: the calls of the manager as data, and that they leave the redeem lock
-- of a channel held.
use hopr_impls.Base.{
  ℕ, zero, suc, ◌≡◌, ◌≢◌, refl, Bool, true, false, Option, none, some, List, [], ◌∷◌, arith,
  Option-cases, Result-cases, inl, inr,
}
use hopr_impls.Base.Keyed.{nat_key, get, insert, get-insert}
use hopr_impls.HoprApi.{HoprApi, Ticket}
use hopr_impls.TicketManager.Queue.Traits.{TicketQueueStore}
use hopr_impls.TicketManager.Queue.Cached.{push, drain, pop}
use hopr_impls.TicketManager.Manager.State.{ChannelTicketQueue, HoprTicketManager, put}
use hopr_impls.TicketManager.Manager.Insert.{
  push_winning, drain_and_push, reject_older, insert_occupied, open_empty, insert_vacant,
  insert_incoming_ticket,
}
use hopr_impls.TicketManager.Manager.Neglect.{neglect_one, neglect_loop, neglect_tickets, max_index}
use hopr_impls.TicketManager.Manager.Redeem.{
  RedemptionResult, redeem_stream, drop, with_lock, take_first, settle,
}

-- A call that can change the manager, other than `sync_from_incoming_channels`: an insertion, a
-- neglection, an attempt to make a stream for a channel, the end of a step of the channel's stream,
-- and the end of this stream.
pub data Call : Type 0 where
  inserts : Ticket → Call
  neglects redeems : ℕ → Option ℕ → Call
  settles : ℕ → Ticket → RedemptionResult → Call
  drops : ℕ → Call

-- The call does not end the channel's stream.
abbrev pub Spares : ℕ → Call → Type 0
Spares id (drops j) = j ≢ id
Spares id (inserts t) = Unit
Spares id (neglects j up_to_index) = Unit
Spares id (redeems j least) = Unit
Spares id (settles j t res) = Unit

abbrev pub is_held : Option ChannelTicketQueue → Bool
is_held none = false
is_held (some c) = c.redeem_lock

-- The channel has an entry, and its lock is held.
abbrev pub IsLocked : ℕ → List (ℕ × ChannelTicketQueue) → Type 0
IsLocked id l = is_held (get id l) ≡ true

module _ (api : HoprApi) {S : Type 0} (qs : TicketQueueStore S) (fuel : ℕ) where
  abbrev pub settle_entry :
      ℕ
      → Ticket
      → RedemptionResult
      → Option ChannelTicketQueue
      → HoprTicketManager S
      → HoprTicketManager S
  settle_entry id t res none m = m
  settle_entry id t res (some c) m =
      let (_, c', s') = settle api qs.queue t res c m.store in put id c' s' m

  abbrev pub drop_entry : ℕ → Option ChannelTicketQueue → HoprTicketManager S → HoprTicketManager S
  drop_entry id none m = m
  drop_entry id (some c) m = put id (drop c) m.store m

  abbrev pub run_call : Call → HoprTicketManager S → HoprTicketManager S
  run_call (inserts t) m = (insert_incoming_ticket api qs fuel t m).1
  run_call (neglects id up_to_index) m = (neglect_tickets api qs.queue fuel id up_to_index m).1
  run_call (redeems id least) m = (redeem_stream id least m).1
  run_call (settles id t res) m = settle_entry id t res (get id m.channel_tickets) m
  run_call (drops id) m = drop_entry id (get id m.channel_tickets) m

  abbrev pub run : List Call → HoprTicketManager S → HoprTicketManager S
  run [] m = m
  run (call ∷ calls) m = run calls (run_call call m)

  module _ (id : ℕ) where
    insert-IsLocked :
        (j : ℕ) (c c' : ChannelTicketQueue) (l : List (ℕ × ChannelTicketQueue))
        → get j l ≡ some c
        → c'.redeem_lock ≡ c.redeem_lock
        → IsLocked id l
        → IsLocked id (insert j c' l)
    insert-IsLocked j c c' l g same k = ground (arith, g, same, k, get-insert j id c' l)

    -- A channel without an entry is not the locked one.
    new-IsLocked :
        (j : ℕ) (c : ChannelTicketQueue) (l : List (ℕ × ChannelTicketQueue))
        → get j l ≡ none
        → IsLocked id l
        → IsLocked id (insert j c l)
    new-IsLocked j c l g k = ground (arith, g, k, get-insert j id c l)

    other-IsLocked :
        (j : ℕ) (c : ChannelTicketQueue) (l : List (ℕ × ChannelTicketQueue))
        → j ≢ id
        → IsLocked id l
        → IsLocked id (insert j c l)
    other-IsLocked j c l apart k = ground (arith, k, apart, get-insert j id c l)

    push_winning-IsLocked :
        (neg : List Ticket) (t : Ticket) (c c' : ChannelTicketQueue) (s : S)
        (m : HoprTicketManager S)
        → get t.channel_id m.channel_tickets ≡ some c
        → c'.redeem_lock ≡ c.redeem_lock
        → IsLocked id m.channel_tickets
        → IsLocked id (push_winning api qs neg t c' s m).1.channel_tickets
    unfolding push_winning
    push_winning-IsLocked neg t c c' s m g same k =
        elim (Result-cases (push api qs.queue c'.queue t s).0) [
          | inr (x, e) ↦
              rw (e, push_winning) (insert-IsLocked t.channel_id c _ m.channel_tickets g same k)
          | inl (u, e) ↦
              rw (e, push_winning) (insert-IsLocked t.channel_id c _ m.channel_tickets g same k)
        ]

    drain_and_push-IsLocked :
        (t : Ticket) (c : ChannelTicketQueue) (m : HoprTicketManager S)
        → get t.channel_id m.channel_tickets ≡ some c
        → IsLocked id m.channel_tickets
        → IsLocked id (drain_and_push api qs fuel t c m).1.channel_tickets
    unfolding drain_and_push
    drain_and_push-IsLocked t c m g k =
        let (r, v', s') = drain api qs.queue fuel c.queue m.store in
        elim (Result-cases r) [
          | inr (x, e) ↦
              rw (e, drain_and_push) (insert-IsLocked t.channel_id c _ m.channel_tickets g refl k)
          | inl (neg, e) ↦ rw (e, drain_and_push) (push_winning-IsLocked neg t c _ s' m g refl k)
        ]

    reject_older-IsLocked :
        (t : Ticket) (c : ChannelTicketQueue) (m : HoprTicketManager S)
        → get t.channel_id m.channel_tickets ≡ some c
        → IsLocked id m.channel_tickets
        → IsLocked id (reject_older api qs t c m).1.channel_tickets
    unfolding reject_older
    reject_older-IsLocked t c m g k = insert-IsLocked t.channel_id c _ m.channel_tickets g refl k

    insert_occupied-IsLocked :
        (t : Ticket) (c : ChannelTicketQueue) (m : HoprTicketManager S)
        → get t.channel_id m.channel_tickets ≡ some c
        → IsLocked id m.channel_tickets
        → IsLocked id (insert_occupied api qs fuel t c m).1.channel_tickets
    unfolding insert_occupied
    insert_occupied-IsLocked t c m g k = ground (
      arith,
      k,
      push_winning-IsLocked [] t c c m.store m g refl k,
      drain_and_push-IsLocked t c m g k,
      reject_older-IsLocked t c m g k,
    )

    insert_vacant-IsLocked :
        (t : Ticket) (m : HoprTicketManager S)
        → get t.channel_id m.channel_tickets ≡ none
        → IsLocked id m.channel_tickets
        → IsLocked id (insert_vacant api qs t m).1.channel_tickets
    unfolding insert_vacant
    insert_vacant-IsLocked t m g k =
        let (opened, s) = qs.open_or_create_queue t.channel_id m.store in
        elim (Result-cases opened) [
          | inr (x, e) ↦ rw (e, insert_vacant) k
          | inl (h, e) ↦ elim (Result-cases (open_empty api qs h s)) [
            | inr (x, o) ↦ rw (e, o, insert_vacant) k
            | inl (v, o) ↦ elim (Result-cases (push api qs.queue v t s).0) [
              | inr (x, p) ↦ rw (e, o, p, insert_vacant) k
              | inl (u, p) ↦
                  rw (e, o, p, insert_vacant) (new-IsLocked t.channel_id _ m.channel_tickets g k)
            ]
          ]
        ]

    insert_incoming_ticket-IsLocked :
        (t : Ticket) (m : HoprTicketManager S)
        → IsLocked id m.channel_tickets
        → IsLocked id (insert_incoming_ticket api qs fuel t m).1.channel_tickets
    unfolding insert_incoming_ticket
    insert_incoming_ticket-IsLocked t m k =
        elim (Option-cases (get t.channel_id m.channel_tickets)) [
          | inr (c, g) ↦ rw (g, insert_incoming_ticket) (insert_occupied-IsLocked t c m g k)
          | inl g ↦ rw (g, insert_incoming_ticket) (insert_vacant-IsLocked t m g k)
        ]

    neglect_one-lock :
        (c : ChannelTicketQueue) (s : S)
        → (neglect_one api qs.queue c s).1.redeem_lock ≡ c.redeem_lock
    unfolding neglect_one
    neglect_one-lock c s = elim (Result-cases (pop api qs.queue c.queue s).0) [
      | inr (x, e) ↦ rw (e, neglect_one) refl
      | inl (popped, e) ↦ rw (e, neglect_one) refl
    ]

    neglect_loop-lock :
        (rounds top : ℕ) (c : ChannelTicketQueue) (s : S)
        → (neglect_loop api qs.queue rounds top c s).1.redeem_lock ≡ c.redeem_lock
    unfolding neglect_loop
    neglect_loop-lock zero top c s = refl
    neglect_loop-lock (suc n) top c s =
        let (r, c', s') = neglect_one api qs.queue c s in
        ground (arith, neglect_one-lock c s, neglect_loop-lock n top c' s')

    settle-lock :
        (t : Ticket) (res : RedemptionResult) (c : ChannelTicketQueue) (s : S)
        → (settle api qs.queue t res c s).1.redeem_lock ≡ c.redeem_lock
    unfolding settle
    settle-lock t res c s = elim (Result-cases (take_first api qs.queue t c.queue s).0) [
      | inr (x, e) ↦ rw (e, settle) refl
      | inl (popped, e) ↦ rw (e, settle) refl
    ]

    redeem_stream-IsLocked :
        (j : ℕ) (least : Option ℕ) (m : HoprTicketManager S)
        → IsLocked id m.channel_tickets
        → IsLocked id (redeem_stream j least m).1.channel_tickets
    unfolding redeem_stream
    redeem_stream-IsLocked j least m k = elim (Option-cases (get j m.channel_tickets)) [
      | inl g ↦ rw (g, redeem_stream) k
      | inr (c, g) ↦ ground (arith, g, k, get-insert j id (with_lock true c) m.channel_tickets)
    ]

    pub run_call-IsLocked :
        (call : Call) (m : HoprTicketManager S)
        → Spares id call
        → IsLocked id m.channel_tickets
        → IsLocked id (run_call call m).channel_tickets
    unfolding neglect_tickets redeem_stream
    run_call-IsLocked (inserts t) m spared k = insert_incoming_ticket-IsLocked t m k
    run_call-IsLocked (neglects j up_to_index) m spared k =
        elim (Option-cases (get j m.channel_tickets)) [
          | inl g ↦ rw (g, run_call, neglect_tickets) k
          | inr (c, g) ↦
              rw (g, run_call, neglect_tickets)
                (insert-IsLocked j c _ m.channel_tickets g
                  (neglect_loop-lock fuel (max_index api up_to_index) c m.store) k)
        ]
    run_call-IsLocked (redeems j least) m spared k = redeem_stream-IsLocked j least m k
    run_call-IsLocked (settles j t res) m spared k = elim (Option-cases (get j m.channel_tickets)) [
      | inl g ↦ rw (g, run_call) k
      | inr (c, g) ↦
          rw (g, run_call)
            (insert-IsLocked j c _ m.channel_tickets g (settle-lock t res c m.store) k)
    ]
    run_call-IsLocked (drops j) m spared k = elim (Option-cases (get j m.channel_tickets)) [
      | inl g ↦ rw (g, run_call) k
      | inr (c, g) ↦ rw (g, run_call) (other-IsLocked j (drop c) m.channel_tickets spared k)
    ]
