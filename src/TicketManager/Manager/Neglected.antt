-- ===== src/TicketManager/Manager/Neglected.antt =====
-- `neglect_tickets`: what it takes off a queue and accounts for.
use hopr_impls.Base.{
  ℕ, zero, suc, ◌+◌, ◌≤◌, ◌<◌, ◌≡◌, refl, sym, List, [], ◌∷◌, ok, arith, length, head?, tail,
  Result-cases, Bool-cases, inl, inr, ◌∙◌, Option, none, some, if◌then◌else◌, leb,
}
use hopr_impls.Base.Keyed.{nat_key, get}
use hopr_impls.HoprApi.{HoprApi, Ticket}
use hopr_impls.TicketManager.Queue.Traits.{TicketQueue, IsTicketQueue}
use hopr_impls.TicketManager.Queue.Sums.{total, amount}
use hopr_impls.TicketManager.Queue.Cached.{pop}
use hopr_impls.TicketManager.Queue.Value.{IsCached, pop-IsCached, nil_of_head, cons_of_head}
use hopr_impls.TicketManager.Manager.State.{ChannelTicketQueue, HoprTicketManager}
use hopr_impls.TicketManager.Manager.Neglect.{
  max_index, neglect_one, neglected_one, neglect_loop, neglect_tickets,
}
use hopr_impls.TicketManager.Manager.Expected.{get_put}

-- The longest prefix of tickets with an index of at most `top`, and what follows it.
abbrev pub up_to : ℕ → List Ticket → List Ticket
up_to top [] = []
up_to top (t ∷ ts) = if leb t.index top then t ∷ up_to top ts else []

abbrev pub beyond : ℕ → List Ticket → List Ticket
beyond top [] = []
beyond top (t ∷ ts) = if leb t.index top then beyond top ts else t ∷ ts

module _ (api : HoprApi) {S : Type 0} (q : TicketQueue S) (lawful : IsTicketQueue api q) where
  open lawful use {contents, peek_lem}

  -- A channel's entry `c`, with the tickets `ts` before, after `neg` was neglected.
  pub record Neglected (c c' : ChannelTicketQueue) (left neg : List Ticket) (s' : S) : Type 0 where
    pub exact : IsCached api q lawful c'.queue s'
    pub queued : contents c'.queue.queue s' ≡ left
    pub neglected : c'.stats.neglected_value ≡ c.stats.neglected_value + total amount neg
    pub winning : c'.stats.winning_tickets ≡ c.stats.winning_tickets
    pub redeemed : c'.stats.redeemed_value ≡ c.stats.redeemed_value
    pub rejected : c'.stats.rejected_value ≡ c.stats.rejected_value
    pub lock : c'.redeem_lock ≡ c.redeem_lock

  stay :
      (c : ChannelTicketQueue) (s : S) (ts left : List Ticket)
      → IsCached api q lawful c.queue s
      → ts ≡ []
      → left ≡ contents c.queue.queue s
      → Neglected c c left ts s
  stay c s ts left k e f = record {
    exact = k;
    queued = sym f;
    neglected = ground (arith, e);
    winning = refl;
    redeemed = refl;
    rejected = refl;
    lock = refl;
  }

  neglect_one_lem :
      (c : ChannelTicketQueue) (s : S) (t : Ticket) (popped : Option Ticket)
      → IsCached api q lawful c.queue s
      → some t ≡ head? (contents c.queue.queue s)
      → c.stats.neglected_value + t.amount ≤ api.max_balance
      → (neglect_one api q c s).0 ≡ ok popped
      → (popped ≡ some t)
        × Neglected c
            (neglect_one api q c s).1
            (tail (contents c.queue.queue s))
            (t ∷ [])
            (neglect_one api q c s).2
  unfolding neglect_one
  neglect_one_lem c s t popped k first fits h = elim (Result-cases (pop api q c.queue s).0) [
    | inr (x, p) ↦ ground (arith, p)
    | inl (r, p) ↦
        let (kept, got, rest) = pop-IsCached api q lawful c.queue s r k p in
        let e : r ≡ some t = ground (arith, got, first) in
        (
          ground (arith, p, e, h),
          rw (p, neglect_one)
              (record {
                exact = kept;
                queued = rest;
                neglected = ground (arith, e);
                winning = refl;
                redeemed = refl;
                rejected = refl;
                lock = refl;
              }),
        )
  ]

  neglect_loop_lem :
      (fuel top : ℕ) (c : ChannelTicketQueue) (s : S) (ts : List Ticket)
      → IsCached api q lawful c.queue s
      → length (contents c.queue.queue s) < fuel
      → c.stats.neglected_value + total amount (contents c.queue.queue s) ≤ api.max_balance
      → (neglect_loop api q fuel top c s).0 ≡ ok ts
      → (ts ≡ up_to top (contents c.queue.queue s))
        × Neglected c
            (neglect_loop api q fuel top c s).1
            (beyond top (contents c.queue.queue s))
            ts
            (neglect_loop api q fuel top c s).2
  unfolding neglect_loop
  neglect_loop_lem zero top c s ts k lt fits h = absurd (omega arith)
  neglect_loop_lem (suc fuel) top c s ts k lt fits h =
      elim (Result-cases (q.peek c.queue.queue s)) [
        | inr (x, p) ↦ ground (arith, p)
        | inl (none, p) ↦
            let empty = nil_of_head (contents c.queue.queue s) (peek_lem c.queue.queue s none p) in
            let none_left : ts ≡ [] = ground (arith, p) in
            (
              ground (arith, none_left, empty),
              rw (p, neglect_loop)
                  (stay c s ts (beyond top (contents c.queue.queue s)) k none_left
                    (ground (arith, empty))),
            )
        | inl (some t, p) ↦
            let first = peek_lem c.queue.queue s (some t) p in
            let split = cons_of_head t (contents c.queue.queue s) first in
            elim (Bool-cases (leb t.index top)) [
              | inr above ↦
                  let none_left : ts ≡ [] = ground (arith, p, above) in
                  (
                    ground (arith, none_left, split, above),
                    rw (p, neglect_loop, above)
                        (stay c s ts (beyond top (contents c.queue.queue s)) k none_left
                          (ground (arith, split, above))),
                  )
              | inl within ↦ elim (Result-cases (neglect_one api q c s).0) [
                | inr (x, o) ↦ ground (arith, p, within, o)
                | inl (popped, o) ↦
                    let (got, i) = neglect_one_lem c s t popped k first (ground (arith, split)) o in
                    let c1 : ChannelTicketQueue = (neglect_one api q c s).1 in
                    let s1 : S = (neglect_one api q c s).2 in
                    elim (Result-cases (neglect_loop api q fuel top c1 s1).0) [
                      | inr (x, r) ↦ ground (arith, p, within, o, r)
                      | inl (us, r) ↦
                          let (all, j) =
                            neglect_loop_lem fuel top c1 s1 us i.exact
                              (ground (arith, i.queued, split))
                              (ground (arith, i.queued, i.neglected, split)) r in
                          let sum : ts ≡ t ∷ us = ground (arith, p, within, o, r, got) in
                          (
                            ground (arith, sum, all, split, within, i.queued),
                            rw (p, neglect_loop, within, o, neglected_one)
                                (record {
                                  exact = j.exact;
                                  queued = ground (arith, j.queued, i.queued, split, within);
                                  neglected = ground (arith, j.neglected, i.neglected, sum);
                                  winning = j.winning ∙ i.winning;
                                  redeemed = j.redeemed ∙ i.redeemed;
                                  rejected = j.rejected ∙ i.rejected;
                                  lock = j.lock ∙ i.lock;
                                }),
                          )
                    ]
              ]
            ]
      ]

  -- A neglection that succeeds returns the tickets up to the given index, or up to the maximal
  -- index, from the front of the queue, leaves the rest queued and the adapter exact, and counts
  -- their amounts as neglected; the rest of the entry stays. The fuel is more than the number of
  -- tickets, and the amounts fit in a balance.
  pub neglect_tickets_lem :
      (fuel id : ℕ) (up_to_index : Option ℕ) (m : HoprTicketManager S) (c : ChannelTicketQueue)
      (ts : List Ticket)
      → get id m.channel_tickets ≡ some c
      → IsCached api q lawful c.queue m.store
      → length (contents c.queue.queue m.store) < fuel
      → c.stats.neglected_value + total amount (contents c.queue.queue m.store) ≤ api.max_balance
      → (neglect_tickets api q fuel id up_to_index m).0 ≡ ok ts
      → let m' = (neglect_tickets api q fuel id up_to_index m).1 in
        let top = max_index api up_to_index in
        (ts ≡ up_to top (contents c.queue.queue m.store))
        × (c' : ChannelTicketQueue) × (get id m'.channel_tickets ≡ some c')
        × Neglected c c' (beyond top (contents c.queue.queue m.store)) ts m'.store
  unfolding neglect_tickets
  neglect_tickets_lem fuel id up_to_index m c ts g k lt fits h =
      elim (Result-cases (neglect_loop api q fuel (max_index api up_to_index) c m.store).0) [
        | inr (x, r) ↦ ground (arith, g, r)
        | inl (us, r) ↦
            let (all, i) =
              neglect_loop_lem fuel (max_index api up_to_index) c m.store us k lt fits r in
            let same : ts ≡ us = ground (arith, g, r) in
            rw (g, neglect_tickets, same) (all, _, get_put id _ m.channel_tickets, i)
      ]
