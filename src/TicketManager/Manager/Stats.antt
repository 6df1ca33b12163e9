-- ===== src/TicketManager/Manager/Stats.antt =====
-- ticket-manager/src/manager.rs and utils.rs: `ticket_stats` and `unrealized_value`.
use hopr_impls.Base.{
  ℕ, ◌+◌, Bool, true, Option, none, some, List, [], ◌∷◌, Result, ok, err, and_then, map_err,
  if◌then◌else◌, ◌==◌,
}
use hopr_impls.Base.Keyed.{nat_key, get}
use hopr_impls.HoprApi.{HoprApi, balance_add}
use hopr_impls.TicketManager.Errors.{TicketManagerError}
use hopr_impls.TicketManager.Queue.Traits.{TicketQueue}
use hopr_impls.TicketManager.Queue.Cached.{ValueCachedQueue, cached_unrealized_value, total_value}
use hopr_impls.TicketManager.Manager.State.{ChannelTicketQueue, HoprTicketManager, store_failed}

pub record ChannelStats : Type 0 where
  pub winning_tickets : ℕ
  pub unredeemed_value : ℕ
  pub rejected_value : ℕ
  pub neglected_value : ℕ

abbrev pub no_stats : ChannelStats
no_stats = record {
  winning_tickets = 0;
  unredeemed_value = 0;
  rejected_value = 0;
  neglected_value = 0;
}

abbrev pub is_wanted : Option ℕ → ℕ → Bool
is_wanted none id = true
is_wanted (some wanted) id = wanted == id

module _ (api : HoprApi) {S : Type 0} (q : TicketQueue S) where
  -- The value of the epoch of the first ticket, zero for an empty queue.
  unfoldable pub first_epoch_value : Option ℕ → ValueCachedQueue → S → Result ℕ ℕ
  first_epoch_value min_index v s = elim (q.peek v.queue s) [
    | err e ↦ err e
    | ok none ↦ ok 0
    | ok (some t) ↦ total_value api q v t.channel_epoch min_index s
  ]

  abbrev pub add_stats : ChannelTicketQueue → ℕ → ChannelStats → ChannelStats
  add_stats c unredeemed stats = record {
    winning_tickets = c.stats.winning_tickets + stats.winning_tickets;
    unredeemed_value = balance_add api unredeemed stats.unredeemed_value;
    rejected_value = balance_add api c.stats.rejected_value stats.rejected_value;
    neglected_value = balance_add api c.stats.neglected_value stats.neglected_value;
  }

  -- The fold of `ticket_stats` over the wanted channels.
  unfoldable pub fold_stats :
      Option ℕ → List (ℕ × ChannelTicketQueue) → S → ChannelStats → Result ℕ ChannelStats
  fold_stats wanted [] s stats = ok stats
  fold_stats wanted ((id, c) ∷ m) s stats =
      let rest = fold_stats wanted m s in
      if is_wanted wanted id
      then and_then (first_epoch_value none c.queue s) (λ value. rest (add_stats c value stats))
      else rest stats

  unfoldable pub ticket_stats :
      Option ℕ → HoprTicketManager S → Result TicketManagerError ChannelStats
  ticket_stats wanted m =
      map_err store_failed (fold_stats wanted m.channel_tickets m.store no_stats)

  -- With no least index the value is read from memory.
  abbrev pub value_of : ChannelTicketQueue → Option ℕ → S → Result ℕ (Option ℕ)
  value_of c none s = ok (some (cached_unrealized_value c.queue))
  value_of c (some least) s =
      and_then (first_epoch_value (some least) c.queue s) (λ value. ok (some value))

  unfoldable pub unrealized_value :
      HoprTicketManager S → ℕ → Option ℕ → Result TicketManagerError (Option ℕ)
  unrealized_value m id min_index = elim (get id m.channel_tickets) [
    | none ↦ ok none
    | some c ↦ map_err store_failed (value_of c min_index m.store)
  ]
