-- ===== src/TicketManager/Manager/Settled.antt =====
-- The end of a redemption: no value is lost, also if the ticket was neglected meanwhile.
use hopr_impls.Base.{
  ℕ, ◌+◌, ◌≤◌, ◌≡◌, refl, ap, true, false, Option, none, some, ok, arith, Result-cases, Bool-cases,
  inl, inr, List, [], ◌∷◌, head?, ◌⊎◌, if◌then◌else◌,
}
use hopr_impls.HoprApi.{HoprApi, Ticket}
use hopr_impls.TicketManager.Queue.Traits.{TicketQueue, IsTicketQueue}
use hopr_impls.TicketManager.Queue.Sums.{total, amount, total-place}
use hopr_impls.TicketManager.Queue.Cached.{ValueCachedQueue, pop}
use hopr_impls.TicketManager.Queue.Value.{IsCached, pop-IsCached, cons_of_head}
use hopr_impls.TicketManager.Manager.State.{ChannelTicketStats, ChannelTicketQueue}
use hopr_impls.TicketManager.Manager.Redeem.{
  RedemptionResult, redeemed, value_too_low, rejected_on_chain, ticket_of, account_for, correct,
  is_first, take_first, settle,
}
use hopr_impls.TicketManager.Manager.Expected.{expected}

-- What has been settled with a channel.
abbrev pub settled_value : ChannelTicketStats → ℕ
settled_value st = st.redeemed_value + st.neglected_value + st.rejected_value

-- What a result is worth as redeemed, as neglected and as rejected value.
abbrev pub worth : RedemptionResult → ℕ × ℕ × ℕ
worth (redeemed u) = (u.amount, 0, 0)
worth (value_too_low u) = (0, u.amount, 0)
worth (rejected_on_chain u) = (0, 0, u.amount)

-- The statistics `after` are those before with the worth of a result, less `twice` of the neglected
-- value, which had been counted already.
pub record Accounted (res : RedemptionResult) (twice : ℕ) (before after : ChannelTicketStats)
    : Type 0 where
  pub redeemed_by : after.redeemed_value ≡ before.redeemed_value + (worth res).0
  pub neglected_by : after.neglected_value + twice ≡ before.neglected_value + (worth res).1
  pub rejected_by : after.rejected_value ≡ before.rejected_value + (worth res).2
  pub winning : after.winning_tickets ≡ before.winning_tickets

first_is :
    (api : HoprApi)
    → ((u w : Ticket) → api.ticket_eq u w ≡ true → u ≡ w)
    → (first : Option Ticket) (t : Ticket) → is_first api first t ≡ true
    → first ≡ some t
first_is api eq none t h = cc
first_is api eq (some u) t h = ap some (eq u t h)

module _ (api : HoprApi) {S : Type 0} (q : TicketQueue S) (lawful : IsTicketQueue api q) where
  open lawful use {contents, peek_lem}

  -- All that was won on a channel: what is queued and what has been settled.
  abbrev pub won_value : ChannelTicketQueue → S → ℕ
  won_value c s = total amount (contents c.queue.queue s) + settled_value c.stats

  -- A ticket that is taken off was the first; if none is, the queue stays.
  take_first_lem :
      (t : Ticket) (v : ValueCachedQueue) (s : S) (r : Option Ticket)
      → IsCached api q lawful v s
      → ((u w : Ticket) → api.ticket_eq u w ≡ true → u ≡ w)
      → (take_first api q t v s).0 ≡ ok r
      → let (_, v', s') = take_first api q t v s in
        IsCached api q lawful v' s'
        × (((r ≡ none)
              × (is_first api (head? (contents v.queue s)) t ≡ false)
              × (contents v'.queue s' ≡ contents v.queue s))
            ⊎ ((r ≡ some t)
                × (is_first api (head? (contents v.queue s)) t ≡ true)
                × (contents v.queue s ≡ t ∷ contents v'.queue s')))
  unfolding take_first
  take_first_lem t v s r k eq h = elim (Result-cases (q.peek v.queue s)) [
    | inr (x, p) ↦ ground (arith, p)
    | inl (first, p) ↦ elim (Bool-cases (is_first api first t)) [
      | inr no_more ↦
          rw (p, take_first, no_more)
            (
              k,
              inl (
                ground (arith, p, no_more),
                ground (arith, peek_lem v.queue s first p, no_more),
                refl,
              ),
            )
      | inl still ↦ elim (Result-cases (pop api q v s).0) [
        | inr (x, o) ↦ ground (arith, p, still, o)
        | inl (popped, o) ↦
            let (kept, got, rest) = pop-IsCached api q lawful v s popped k o in
            let head : first ≡ head? (contents v.queue s) = peek_lem v.queue s first p in
            let it : first ≡ some t = first_is api eq first t still in
            rw (p, take_first, still)
              (
                kept,
                inr (
                  ground (arith, p, still, o, got, head, it),
                  ground (arith, p, still, head),
                  ground (arith, cons_of_head t (contents v.queue s), head, it, rest),
                ),
              )
      ]
    ]
  ]

  settled :
      {t : Ticket} (res : RedemptionResult) (c : ChannelTicketQueue) (popped : Option Ticket)
      {before : List Ticket} (left : List Ticket)
      → (ticket_of res).amount ≡ t.amount
      → (is_first api (head? before) t ≡ true) ⊎ (t.amount ≤ c.stats.neglected_value)
      → total amount before + settled_value c.stats + t.amount ≤ api.max_balance
      → ((popped ≡ none) × (is_first api (head? before) t ≡ false) × (left ≡ before))
        ⊎ ((popped ≡ some t) × (is_first api (head? before) t ≡ true) × (before ≡ t ∷ left))
      → total amount left + settled_value (correct api popped res (account_for api res c.stats))
        ≡ total amount before + settled_value c.stats
  unfolding account_for
  settled (redeemed u) c popped left same there fits moved = ground arith
  settled (value_too_low u) c popped left same there fits moved = ground arith
  settled (rejected_on_chain u) c popped left same there fits moved = ground arith

  accounted :
      {t : Ticket} (res : RedemptionResult) (c : ChannelTicketQueue) (popped : Option Ticket)
      {before left : List Ticket}
      → (ticket_of res).amount ≡ t.amount
      → (is_first api (head? before) t ≡ true) ⊎ (t.amount ≤ c.stats.neglected_value)
      → total amount before + settled_value c.stats + t.amount ≤ api.max_balance
      → ((popped ≡ none) × (is_first api (head? before) t ≡ false) × (left ≡ before))
        ⊎ ((popped ≡ some t) × (is_first api (head? before) t ≡ true) × (before ≡ t ∷ left))
      → Accounted res
          (if is_first api (head? before) t then 0 else t.amount)
          c.stats
          (correct api popped res (account_for api res c.stats))
  unfolding account_for
  accounted (redeemed u) c popped same there fits moved = record {
    redeemed_by = ground arith;
    neglected_by = ground arith;
    rejected_by = ground arith;
    winning = ground arith;
  }
  accounted (value_too_low u) c popped same there fits moved = record {
    redeemed_by = ground arith;
    neglected_by = ground arith;
    rejected_by = ground arith;
    winning = ground arith;
  }
  accounted (rejected_on_chain u) c popped same there fits moved = record {
    redeemed_by = ground arith;
    neglected_by = ground arith;
    rejected_by = ground arith;
    winning = ground arith;
  }

  -- The end of a redemption step, if it does not fail, keeps the adapter exact and the total of what
  -- is queued and what has been settled. The redeemed, neglected and rejected value each grow by
  -- what the result is worth there; if the ticket was no longer the first of the queue, since it was
  -- neglected while the chain was asked, the neglected value is less by its amount, which it held.
  -- The adapter was exact, the result is about the ticket, `ticket_eq` decides equality, and the
  -- amounts fit in a balance.
  pub settle-won_value :
      (t : Ticket) (res : RedemptionResult) (c : ChannelTicketQueue) (s : S)
      → IsCached api q lawful c.queue s
      → ((u w : Ticket) → api.ticket_eq u w ≡ true → u ≡ w)
      → (ticket_of res).amount ≡ t.amount
      → (is_first api (head? (contents c.queue.queue s)) t ≡ true)
        ⊎ (t.amount ≤ c.stats.neglected_value)
      → won_value c s + t.amount ≤ api.max_balance
      → (settle api q t res c s).0 ≡ ok tt
      → let (_, c', s') = settle api q t res c s in
        let twice = if is_first api (head? (contents c.queue.queue s)) t then 0 else t.amount in
        IsCached api q lawful c'.queue s'
        × (won_value c' s' ≡ won_value c s)
        × Accounted res twice c.stats c'.stats
  unfolding settle
  settle-won_value t res c s k eq same there fits h =
      elim (Result-cases (take_first api q t c.queue s).0) [
        | inr (x, p) ↦ ground (arith, p)
        | inl (popped, p) ↦
            let (kept, moved) = take_first_lem t c.queue s popped k eq p in
            rw (p, settle)
              (
                kept,
                settled res c popped _ same there fits moved,
                accounted res c popped same there fits moved,
              )
      ]

-- An insertion moves the amount of the ticket into the total of what is queued and neglected.
pub total-expected :
    (api : HoprApi) (t : Ticket) (ts : List Ticket)
    → total amount (expected api t ts).0 + total amount (expected api t ts).1
      ≡ t.amount + total amount ts
total-expected api t [] = omega arith
total-expected api t (u ∷ us) = ground (arith, total-place amount api t (u ∷ us))
