-- ===== src/TicketManager/Manager/Locked.antt =====
-- The redeem lock: no two streams for a channel while other calls go on, and no stream ends with the
-- lock held.
use hopr_impls.Base.{
  ℕ, ◌≡◌, ◌≢◌, refl, true, false, Option, none, some, List, [], ◌∷◌, ok, err, is_ok, arith, All,
  Option-cases, Result-cases, inl, inr,
}
use hopr_impls.Base.Keyed.{nat_key, get, get-insert}
use hopr_impls.HoprApi.{HoprApi, Ticket}
use hopr_impls.TicketManager.Errors.{already_redeeming}
use hopr_impls.TicketManager.Queue.Traits.{TicketQueue, TicketQueueStore}
use hopr_impls.TicketManager.Manager.State.{ChannelTicketQueue, HoprTicketManager, put}
use hopr_impls.TicketManager.Manager.Redeem.{
  RedeemState, RedemptionResult, Answer, redeem_stream, drop, with_lock, attempt, settle, complete,
  redeem_next,
}
use hopr_impls.TicketManager.Manager.Calls.{
  Call, Spares, IsLocked, run_call, run, run_call-IsLocked,
}

module _ (api : HoprApi) {S : Type 0} (qs : TicketQueueStore S) (fuel : ℕ) where
  module _ (id : ℕ) where
    run-IsLocked :
        (calls : List Call) (m : HoprTicketManager S)
        → All (Spares id) calls
        → IsLocked id m.channel_tickets
        → IsLocked id (run api qs fuel calls m).channel_tickets
    run-IsLocked [] m spared k = k
    run-IsLocked (call ∷ calls) m spared k =
        run-IsLocked calls (run_call api qs fuel call m) spared.1
          (run_call-IsLocked api qs fuel id call m spared.0 k)

    granted-IsLocked :
        (least : Option ℕ) (m : HoprTicketManager S) (r : RedeemState)
        → (redeem_stream id least m).0 ≡ ok r
        → IsLocked id (redeem_stream id least m).1.channel_tickets
    unfolding redeem_stream
    granted-IsLocked least m r h = elim (Option-cases (get id m.channel_tickets)) [
      | inl g ↦ ground (arith, g)
      | inr (c, g) ↦ ground (arith, g, get-insert id id (with_lock true c) m.channel_tickets)
    ]

    excluded :
        (least : Option ℕ) (m : HoprTicketManager S)
        → IsLocked id m.channel_tickets
        → (redeem_stream id least m ≡ (err already_redeeming, m))
          × (c : ChannelTicketQueue) × (get id m.channel_tickets ≡ some c)
          × (is_ok (redeem_stream id least (put id (drop c) m.store m)).0 ≡ true)
    unfolding redeem_stream drop
    excluded least m k = elim (Option-cases (get id m.channel_tickets)) [
      | inl g ↦ absurd (ground (arith, g, k))
      | inr (c, g) ↦ (
        ground (arith, g, k),
        c,
        g,
        ground (arith, get-insert id id (with_lock false c) m.channel_tickets),
      )
    ]

  -- Once a stream was made for a channel, any further call for one is refused and changes nothing,
  -- after any sequence of insertions, neglections, further attempts, steps of streams, and ends of
  -- other channels' streams (a step that fails also ends its stream); after the end of the channel's stream it is granted. A synchronization
  -- with the incoming channels, which puts a fresh entry in the map, is not among these calls.
  pub redeem_stream_excludes :
      (id : ℕ) (least least' : Option ℕ) (calls : List Call) (m : HoprTicketManager S)
      (r : RedeemState)
      → (redeem_stream id least m).0 ≡ ok r
      → All (Spares id) calls
      → let m' = run api qs fuel calls (redeem_stream id least m).1 in
        (redeem_stream id least' m' ≡ (err already_redeeming, m'))
        × (c : ChannelTicketQueue) × (get id m'.channel_tickets ≡ some c)
        × (is_ok (redeem_stream id least' (put id (drop c) m'.store m')).0 ≡ true)
  redeem_stream_excludes id least least' calls m r h spared =
      excluded id least' _ (run-IsLocked id calls _ spared (granted-IsLocked id least m r h))

module _ (api : HoprApi) {S : Type 0} (q : TicketQueue S) where
  complete-lock :
      (r : RedeemState) (t : Ticket) (answer : Answer) (c : ChannelTicketQueue) (s : S)
      → ((res : RedemptionResult) → (complete api q r t answer c s).0 ≢ ok (some res))
      → (complete api q r t answer c s).1.redeem_lock ≡ false
  unfolding complete drop
  complete-lock r t answer c s fails = elim (Result-cases (attempt r.min_redeem_value t answer)) [
    | inr (x, a) ↦ rw (a, complete) refl
    | inl (res, a) ↦ elim (Result-cases (settle api q t res c s).0) [
      | inr (x, e) ↦ rw (a, e, complete) refl
      | inl (u, e) ↦ absurd (fails res (rw (a, e, complete) refl))
    ]
  ]

  -- A step of a stream that does not yield a ticket, for the end of the queue or for an error,
  -- leaves the lock of the stream's entry free, whatever other calls did meanwhile.
  pub redeem_next_unlocks :
      (r : RedeemState) (answer : Answer)
      (meanwhile : ChannelTicketQueue → S → ChannelTicketQueue × S) (c : ChannelTicketQueue) (s : S)
      → ((res : RedemptionResult) → (redeem_next api q r answer meanwhile c s).0 ≢ ok (some res))
      → (redeem_next api q r answer meanwhile c s).1.redeem_lock ≡ false
  unfolding redeem_next drop
  redeem_next_unlocks r answer meanwhile c s fails = elim (Result-cases (q.peek c.queue.queue s)) [
    | inr (x, p) ↦ rw (p, redeem_next) refl
    | inl (none, p) ↦ rw (p, redeem_next) refl
    | inl (some t, p) ↦
        rw (p, redeem_next)
          (complete-lock r t answer (meanwhile c s).0 (meanwhile c s).1
            (rw (p, redeem_next) at fails))
  ]
