-- ===== src/TicketManager/Factory/Ticket.antt =====
-- `new_multihop_ticket` and `remaining_incoming_channel_stake`.
use hopr_impls.Base.{
  ℕ, ◌+◌, ◌-◌, ◌<◌, ◌≤◌, min, ◌≡◌, ◌≢◌, true, false, ◌⊎◌, none, some, arith, ok, err, is_ok, ltb,
  ◌==◌, Bool-cases, Option-cases, inl, inr,
}
use hopr_impls.HoprApi.{HoprApi, ChannelEntry, is_open, balance_mul}
use hopr_impls.TicketManager.Errors.{
  TicketManagerError, other, out_of_funds, path_position_one, channel_not_open,
  invalid_winning_probability,
}
use hopr_impls.TicketManager.Index.Defs.{u64_mod}
use hopr_impls.TicketManager.Cache.Defs.{OutgoingIndexCache}
use hopr_impls.TicketManager.Factory.Defs.{
  key, TicketBuilder, next_outgoing_ticket_index, new_multihop_ticket,
}
use hopr_impls.TicketManager.Cache.Laws.{counter}
use hopr_impls.TicketManager.Factory.Index.{next_outgoing_ticket_index_lem}

module _ (api : HoprApi) (c : ChannelEntry) (pos prob price : ℕ) (t : OutgoingIndexCache) where
  abbrev pub made : ℕ
  made = balance_mul api price (pos - 1)

  -- A ticket that is made is for an open channel and a path position that is not 1; its value is
  -- the price of the remaining hops divided by the winning probability and is covered by the
  -- channel's balance; its index is the next one of the channel, which is no less than the
  -- channel's ticket index or is the maximum, and is taken from the tracker.
  pub new_multihop_ticket-ok :
      (b : TicketBuilder)
      → (new_multihop_ticket api c pos prob price t).0 ≡ ok b
      → counter (key c) t + 1 < u64_mod
      → c.ticket_index + 1 < u64_mod
      → (pos ≢ 1)
        × (is_open c.status ≡ true)
        × (api.div_f64 (balance_mul api price (pos - 1)) prob ≡ some b.balance)
        × (b.balance ≤ c.balance)
        × (min c.ticket_index api.max_ticket_index ≤ b.index)
        × (next_outgoing_ticket_index api c t
            ≡ ((new_multihop_ticket api c pos prob price t).1, b.index))
        × (b.counterparty ≡ c.destination)
        × (b.win_prob ≡ prob)
        × (b.channel_epoch ≡ c.channel_epoch)
  unfolding new_multihop_ticket
  new_multihop_ticket-ok b h r l = ground (arith, (next_outgoing_ticket_index_lem api c t r l).0)

  -- Why a ticket is refused.
  pub data Refused : TicketManagerError → Type 0 where
    at_last_hop : pos ≡ 1 → Refused (other path_position_one)
    not_open : pos ≢ 1 → is_open c.status ≡ false → Refused (other channel_not_open)
    bad_probability :
        pos ≢ 1
        → is_open c.status ≡ true
        → api.div_f64 made prob ≡ none
        → Refused (other invalid_winning_probability)
    too_dear :
        pos ≢ 1
        → is_open c.status ≡ true
        → (amount : ℕ) → api.div_f64 made prob ≡ some amount
        → c.balance < amount
        → Refused (out_of_funds c.id amount)

  -- Each call either makes a ticket, or takes no index and returns the error of the first test
  -- that fails: the position, the channel's status, the winning probability, the balance.
  pub new_multihop_ticket_cases :
      (is_ok (new_multihop_ticket api c pos prob price t).0 ≡ true)
      ⊎ ((e : TicketManagerError) × Refused e
          × (new_multihop_ticket api c pos prob price t ≡ (err e, t)))
  unfolding new_multihop_ticket
  new_multihop_ticket_cases = elim (Bool-cases (pos == 1)) [
    | inl one ↦ inr (_, at_last_hop (ground arith), ground arith)
    | inr more ↦ elim (Bool-cases (is_open c.status)) [
      | inr shut ↦ inr (_, not_open (ground arith) shut, ground arith)
      | inl on ↦ elim (Option-cases (api.div_f64 made prob)) [
        | inl none_left ↦ inr (_, bad_probability (ground arith) on none_left, ground arith)
        | inr (amount, e) ↦ elim (Bool-cases (ltb c.balance amount)) [
          | inl dear ↦ inr (_, too_dear (ground arith) on amount e (ground arith), ground arith)
          | inr fine ↦ inl (ground arith)
        ]
      ]
    ]
  ]
