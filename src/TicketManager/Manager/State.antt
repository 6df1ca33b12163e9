-- ===== src/TicketManager/Manager/State.antt =====
-- ticket-manager/src/manager.rs and utils.rs: the state of `HoprTicketManager`. The store holds the
-- tickets of the queues, the map `channel_tickets` their adapters, statistics and redeem locks.
-- Each method holds the channel's lock throughout, so it is one step on the state.
use hopr_impls.Base.{ℕ, Bool, false, List, [], ◌∷◌, Result, ok, err}
use hopr_impls.Base.Keyed.{nat_key, insert}
use hopr_impls.HoprApi.{HoprApi, Ticket, balance_add}
use hopr_impls.TicketManager.Errors.{TicketManagerError, store_error, backend}
use hopr_impls.TicketManager.Queue.Traits.{TicketQueue}
use hopr_impls.TicketManager.Queue.Cached.{ValueCachedQueue}

pub record ChannelTicketStats : Type 0 where
  pub winning_tickets : ℕ
  pub redeemed_value : ℕ
  pub neglected_value : ℕ
  pub rejected_value : ℕ

pub record ChannelTicketQueue : Type 0 where
  pub queue : ValueCachedQueue
  pub stats : ChannelTicketStats
  pub redeem_lock : Bool

pub record HoprTicketManager (S : Type 0) : Type 0 where
  pub channel_tickets : List (ℕ × ChannelTicketQueue)
  pub store : S

-- A method's result and the manager after it.
abbrev pub Outcome : Type 0 → Type 0 → Type 0
Outcome S A = Result TicketManagerError A × HoprTicketManager S

abbrev pub store_failed : ℕ → TicketManagerError
store_failed e = store_error (backend e)

abbrev pub unwrap_or_zero : Result ℕ ℕ → ℕ
unwrap_or_zero (ok n) = n
unwrap_or_zero (err e) = 0

module _ {S : Type 0} where
  -- `From<Q> for ChannelTicketQueue<Q>`
  unfoldable pub from_queue : TicketQueue S → ValueCachedQueue → S → ChannelTicketQueue
  from_queue q v s = record {
    queue = v;
    stats = record {
      winning_tickets = unwrap_or_zero (q.len v.queue s);
      redeemed_value = 0;
      neglected_value = 0;
      rejected_value = 0;
    };
    redeem_lock = false;
  }

  -- A channel's entry after a method, and the store.
  abbrev pub put : ℕ → ChannelTicketQueue → S → HoprTicketManager S → HoprTicketManager S
  put id c s m = record { channel_tickets = insert id c m.channel_tickets; store = s }

-- `sum::<HoprBalance>()` of the amounts.
unfoldable pub sum_amounts : HoprApi → ℕ → List Ticket → ℕ
sum_amounts api acc [] = acc
sum_amounts api acc (t ∷ ts) = sum_amounts api (balance_add api acc t.amount) ts
