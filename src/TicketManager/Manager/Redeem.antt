-- ===== src/TicketManager/Manager/Redeem.antt =====
-- ticket-manager/src/manager.rs: `redeem_stream` and the state machine of the stream it returns. The
-- stream and the map share a channel's lock and queue by `Arc`, until `sync_from_incoming_channels`
-- puts a fresh entry in the map or takes the entry out of it; the stream keeps its own. So a step of
-- the stream works on its own entry, which it returns, and what the chain answers and what other
-- calls do to the entry and the store while the stream awaits the answer are arguments of a step.
use hopr_impls.Base.{ℕ, Bool, true, false, Option, none, some, Result, ok, err, if◌then◌else◌, leb}
use hopr_impls.Base.Keyed.{nat_key, get}
use hopr_impls.HoprApi.{HoprApi, Ticket, balance_add, balance_sub}
use hopr_impls.TicketManager.Errors.{
  Cause, TicketManagerError, channel_queue_not_found, already_redeeming, redeem_error,
}
use hopr_impls.TicketManager.Queue.Traits.{TicketQueue}
use hopr_impls.TicketManager.Queue.Cached.{ValueCachedQueue, pop}
use hopr_impls.TicketManager.Manager.State.{
  ChannelTicketStats, ChannelTicketQueue, HoprTicketManager, Outcome, store_failed, put,
}

-- `RedemptionResult`, and the answer of the chain to `redeem_ticket`.
pub data RedemptionResult : Type 0 where
  redeemed value_too_low rejected_on_chain : Ticket → RedemptionResult

pub data Answer : Type 0 where
  accepts rejects : Ticket → Answer
  fails : Cause → Answer

abbrev pub ticket_of : RedemptionResult → Ticket
ticket_of (redeemed t) = t
ticket_of (value_too_low t) = t
ticket_of (rejected_on_chain t) = t

-- What the stream keeps besides the channel's lock and queue.
pub record RedeemState : Type 0 where
  pub channel_id : ℕ
  pub min_redeem_value : ℕ

abbrev pub or_zero : Option ℕ → ℕ
or_zero none = 0
or_zero (some n) = n

abbrev pub with_lock : Bool → ChannelTicketQueue → ChannelTicketQueue
with_lock b c = record c { redeem_lock = b }

module _ {S : Type 0} where
  -- `redeem_stream`: the lock is taken by a compare-exchange from `false` to `true`.
  unfoldable pub redeem_stream : ℕ → Option ℕ → HoprTicketManager S → Outcome S RedeemState
  redeem_stream id min_amount m = elim (get id m.channel_tickets) [
    | none ↦ (err channel_queue_not_found, m)
    | some c ↦ if c.redeem_lock then (err already_redeeming, m) else (
      ok (record { channel_id = id; min_redeem_value = or_zero min_amount }),
      put id (with_lock true c) m.store m,
    )
  ]

-- `Drop for RedeemState`, on the stream's own entry
unfoldable pub drop : ChannelTicketQueue → ChannelTicketQueue
drop c = with_lock false c

-- The attempt: tickets of low value are not sent to the chain.
unfoldable pub attempt : ℕ → Ticket → Answer → Result TicketManagerError RedemptionResult
attempt least t answer =
    if leb least t.amount
    then (elim answer [
      | accepts u ↦ ok (redeemed u)
      | rejects u ↦ ok (rejected_on_chain u)
      | fails e ↦ err (redeem_error e)
    ])
    else ok (value_too_low t)

module _ (api : HoprApi) where
  unfoldable pub account_for : RedemptionResult → ChannelTicketStats → ChannelTicketStats
  account_for (redeemed u) st = record st {
    redeemed_value = balance_add api st.redeemed_value u.amount;
  }
  account_for (value_too_low u) st = record st {
    neglected_value = balance_add api st.neglected_value u.amount;
  }
  account_for (rejected_on_chain u) st = record st {
    rejected_value = balance_add api st.rejected_value u.amount;
  }

  -- If the ticket was no longer first, it had been counted as neglected meanwhile.
  abbrev pub correct : Option Ticket → RedemptionResult → ChannelTicketStats → ChannelTicketStats
  correct (some u) res st = st
  correct none res st = record st {
    neglected_value = balance_sub st.neglected_value (ticket_of res).amount;
  }

  abbrev pub is_first : Option Ticket → Ticket → Bool
  is_first none t = false
  is_first (some u) t = api.ticket_eq u t

  module _ {S : Type 0} (q : TicketQueue S) where
    -- Pop the ticket if it is still the first one.
    unfoldable pub take_first :
        Ticket → ValueCachedQueue → S → Result ℕ (Option Ticket) × ValueCachedQueue × S
    take_first t v s = elim (q.peek v.queue s) [
      | err e ↦ (err e, v, s)
      | ok first ↦ if is_first first t then pop api q v s else (ok none, v, s)
    ]

    -- The end of a step, under the write lock.
    unfoldable pub settle :
        Ticket
        → RedemptionResult
        → ChannelTicketQueue
        → S
        → Result ℕ (Unit {0}) × ChannelTicketQueue × S
    settle t res c s =
        let (r, v', s') = take_first t c.queue s in
        elim r [
          | err e ↦ (err e, record c { queue = v' }, s')
          | ok popped ↦ (
            ok tt,
            record c { queue = v'; stats = correct popped res (account_for res c.stats) },
            s',
          )
        ]

  -- A result of a step, the stream's entry and the store.
  abbrev pub Stepped : Type 0 → Type 0
  Stepped S = Result TicketManagerError (Option RedemptionResult) × ChannelTicketQueue × S

  module _ {S : Type 0} (q : TicketQueue S) where
    -- After the answer: `c` and `s` are as the other calls have left them meanwhile.
    unfoldable pub complete : RedeemState → Ticket → Answer → ChannelTicketQueue → S → Stepped S
    complete r t answer c s = elim (attempt r.min_redeem_value t answer) [
      | err e ↦ (err e, drop c, s)
      | ok res ↦
          let (done, c', s') = settle q t res c s in
          elim done [ err e ↦ (err (store_failed e), drop c', s') | ok _ ↦ (ok (some res), c', s') ]
    ]

    -- One item of the stream. The state is dropped when the stream ends or fails.
    unfoldable pub redeem_next :
        RedeemState
        → Answer
        → (ChannelTicketQueue → S → ChannelTicketQueue × S)
        → ChannelTicketQueue
        → S
        → Stepped S
    redeem_next r answer meanwhile c s = elim (q.peek c.queue.queue s) [
      | err e ↦ (err (store_failed e), drop c, s)
      | ok none ↦ (ok none, drop c, s)
      | ok (some t) ↦ let (c', s') = meanwhile c s in complete r t answer c' s'
    ]
