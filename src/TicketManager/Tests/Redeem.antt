-- ===== src/TicketManager/Tests/Redeem.antt =====
-- Redemption at concrete inputs.
use hopr_impls.Base.{List, ◌≡◌, refl, true, none, some, [], ◌∷◌, err, arith, inl, is_ok}
use hopr_impls.Base.Keyed.{nat_key, get, insert}
use hopr_impls.TicketManager.Backend.Sorted.{sorted}
use hopr_impls.TicketManager.Queue.Traits.{place}
use hopr_impls.TicketManager.Errors.{already_redeeming}
use hopr_impls.TicketManager.Queue.Cached.{pop, subtract_value}
use hopr_impls.TicketManager.Queue.Value.{IsCached}
use hopr_impls.TicketManager.Backend.Memory
use hopr_impls.TicketManager.Backend.Memory.{MemoryStore, heap, take_least}
use hopr_impls.TicketManager.Backend.Laws.{memory_promise}
use hopr_impls.TicketManager.Manager.State.{ChannelTicketQueue, put}
use hopr_impls.TicketManager.Manager.Redeem.{
  RedeemState, redeemed, redeem_stream, drop, settle, take_first,
}
use hopr_impls.TicketManager.Manager.Calls.{Call, neglects, redeems, settles, drops, run}
use hopr_impls.TicketManager.Manager.Locked.{redeem_stream_excludes}
use hopr_impls.TicketManager.Manager.Settled.{settle-won_value, won_value, Accounted}
use hopr_impls.TicketManager.Tests.Data.{
  qs, seventh, api, q, store, manager, managed, adapter-IsCached, fifth, ticket_eq_lem, api_total,
}

abbrev state : RedeemState
state = record { channel_id = 1; min_redeem_value = 0 }

settle-won_value_example :
    let (_, c', s') = settle api q fifth (redeemed fifth) managed store in
    IsCached api q (memory_promise api api_total) c'.queue s'
    × (won_value api q (memory_promise api api_total) c' s'
        ≡ won_value api q (memory_promise api api_total) managed store)
    × Accounted (redeemed fifth) 0 managed.stats c'.stats
unfolding settle take_first pop Memory.pop Memory.peek heap get insert subtract_value memory_promise
    sorted place take_least
settle-won_value_example =
    settle-won_value api q (memory_promise api api_total) fifth (redeemed fifth) managed store
      adapter-IsCached ticket_eq_lem refl (inl refl) (omega arith) refl

-- What happens while a stream lives: a neglection, another attempt, and the end of a step.
abbrev meanwhile : List Call
meanwhile =
    neglects 1 (some 5) ∷ redeems 1 none ∷ settles 1 seventh (redeemed seventh) ∷ drops 2 ∷ []

redeem_stream_excludes_example :
    let m' = run api qs 3 meanwhile (redeem_stream 1 (some 0) manager).1 in
    (redeem_stream 1 none m' ≡ (err already_redeeming, m'))
    × (c : ChannelTicketQueue) × (get 1 m'.channel_tickets ≡ some c)
    × (is_ok (redeem_stream 1 none (put 1 (drop c) m'.store m')).0 ≡ true)
unfolding redeem_stream get
redeem_stream_excludes_example =
    redeem_stream_excludes api qs 3 1 (some 0) none meanwhile manager state refl
      (tt, (tt, (tt, ((λ e. absurd (omega (arith, e))), tt))))
