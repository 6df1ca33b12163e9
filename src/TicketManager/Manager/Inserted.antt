-- ===== src/TicketManager/Manager/Inserted.antt =====
-- `insert_incoming_ticket`: what it does to the queue, the statistics and the adapter of a channel.
use hopr_impls.Base.{
  ℕ, ◌+◌, ◌≤◌, ◌<◌, min, ◌≡◌, refl, sym, subst, List, [], ◌∷◌, ok, arith, length, Result-cases, inl,
  inr, none, some, ltb, Bool-cases,
}
use hopr_impls.Base.Keyed.{nat_key, get}
use hopr_impls.HoprApi.{HoprApi, Ticket}
use hopr_impls.TicketManager.Queue.Traits.{TicketQueueStore, IsTicketQueue, place}
use hopr_impls.TicketManager.Queue.Sums.{total, amount}
use hopr_impls.TicketManager.Queue.Cached.{push, drain}
use hopr_impls.TicketManager.Queue.Value.{AreOf, IsCached, push-IsCached, nil_of_head}
use hopr_impls.TicketManager.Queue.Emptied.{drain-IsCached, AreOf-head}
use hopr_impls.TicketManager.Manager.State.{ChannelTicketQueue, HoprTicketManager, sum_amounts}
use hopr_impls.TicketManager.Manager.Insert.{
  push_winning, drain_and_push, reject_older, insert_occupied, insert_incoming_ticket,
}
use hopr_impls.TicketManager.Manager.Expected.{
  sum_amounts_lem, get_put, expected, expected-none, expected-newer, expected-older, expected-same,
}

module _ (api : HoprApi) {S : Type 0} (qs : TicketQueueStore S)
    (lawful : IsTicketQueue api qs.queue) where
  open lawful use {contents, peek_lem}

  -- A channel's entry `c` after an insertion of `t` that leaves the manager `m`: the tickets `left`
  -- are queued, the tickets `neg` were neglected, and one more ticket has won.
  pub record Inserted (t : Ticket) (c : ChannelTicketQueue) (left neg : List Ticket)
      (m : HoprTicketManager S) : Type 0 where
    pub after : ChannelTicketQueue
    pub found : get t.channel_id m.channel_tickets ≡ some after
    pub exact : IsCached api qs.queue lawful after.queue m.store
    pub queued : contents after.queue.queue m.store ≡ left
    pub winning : after.stats.winning_tickets ≡ c.stats.winning_tickets + 1
    pub neglected : after.stats.neglected_value ≡ c.stats.neglected_value + total amount neg
    pub redeemed : after.stats.redeemed_value ≡ c.stats.redeemed_value
    pub rejected : after.stats.rejected_value ≡ c.stats.rejected_value
    pub lock : after.redeem_lock ≡ c.redeem_lock

  recast :
      {t : Ticket} {c : ChannelTicketQueue} {m : HoprTicketManager S}
      {left left' neg neg' : List Ticket}
      → left ≡ left'
      → neg ≡ neg'
      → Inserted t c left neg m
      → Inserted t c left' neg' m
  recast p q i = rw (← p, ← q) i

  push_winning_lem :
      (neg : List Ticket) (t : Ticket) (c : ChannelTicketQueue) (s : S) (m : HoprTicketManager S)
      (got : List Ticket)
      → IsCached api qs.queue lawful c.queue s
      → AreOf t.channel_epoch (contents c.queue.queue s)
      → t.amount + total amount (contents c.queue.queue s) ≤ api.max_balance
      → (push_winning api qs neg t c s m).0 ≡ ok got
      → (got ≡ neg)
        × Inserted t c
            (place api t (contents c.queue.queue s))
            []
            (push_winning api qs neg t c s m).1
  unfolding push_winning
  push_winning_lem neg t c s m got k same fits h =
      elim (Result-cases (push api qs.queue c.queue t s).0) [
        | inr (x, p) ↦ ground (arith, p)
        | inl (done, p) ↦
            let (kept, placed) =
              push-IsCached api qs.queue lawful c.queue t s k same fits (ground (arith, p)) in
            (
              ground (arith, p, h),
              rw (p, push_winning)
                  (record {
                    after = record c {
                      queue = (push api qs.queue c.queue t s).1;
                      stats = record (c.stats) { winning_tickets = c.stats.winning_tickets + 1 };
                    };
                    found = get_put t.channel_id _ m.channel_tickets;
                    exact = kept;
                    queued = placed;
                    winning = refl;
                    neglected = omega arith;
                    redeemed = refl;
                    rejected = refl;
                    lock = refl;
                  }),
            )
      ]

  module _ (fuel : ℕ) (t : Ticket) (c : ChannelTicketQueue) (m : HoprTicketManager S)
      (k : IsCached api qs.queue lawful c.queue m.store)
      (enough : length (contents c.queue.queue m.store) < fuel)
      (fits : t.amount + total amount (contents c.queue.queue m.store) ≤ api.max_balance)
      (room : c.stats.neglected_value + t.amount + total amount (contents c.queue.queue m.store)
        ≤ api.max_balance) where
    abbrev emptied : List Ticket → ChannelTicketQueue
    emptied neg = record c {
      queue = (drain api qs.queue fuel c.queue m.store).1;
      stats = record (c.stats) {
        neglected_value = min (c.stats.neglected_value + sum_amounts api 0 neg) api.max_balance;
      };
    }

    drain_and_push_lem :
        (got : List Ticket)
        → (drain_and_push api qs fuel t c m).0 ≡ ok got
        → (got ≡ contents c.queue.queue m.store)
          × Inserted t c
              (t ∷ [])
              (contents c.queue.queue m.store)
              (drain_and_push api qs fuel t c m).1
    unfolding drain_and_push place
    drain_and_push_lem got h = elim (Result-cases (drain api qs.queue fuel c.queue m.store).0) [
      | inr (x, p) ↦ ground (arith, p)
      | inl (neg, p) ↦
          let c1 : ChannelTicketQueue = emptied neg in
          let s1 : S = (drain api qs.queue fuel c.queue m.store).2 in
          let (kept, all, empty) =
            drain-IsCached api qs.queue lawful fuel c.queue m.store neg k enough p in
          let (same, i) =
            push_winning_lem neg t c1 s1 m got kept (subst (AreOf t.channel_epoch) (sym empty) tt)
              (ground (arith, empty)) (ground (arith, p)) in
          (
            ground (arith, same, all),
            rw (p, drain_and_push)
                (record {
                  after = i.after;
                  found = i.found;
                  exact = i.exact;
                  queued = ground (arith, i.queued, empty);
                  winning = i.winning;
                  neglected = ground (arith, i.neglected, all, sum_amounts_lem api 0 neg);
                  redeemed = i.redeemed;
                  rejected = i.rejected;
                  lock = i.lock;
                }),
          )
    ]

    reject_older-ok : (reject_older api qs t c m).0 ≡ ok (t ∷ [])
    unfolding reject_older
    reject_older-ok = refl

    reject_older_lem :
        Inserted t c (contents c.queue.queue m.store) (t ∷ []) (reject_older api qs t c m).1
    unfolding reject_older
    reject_older_lem = record {
      after = record c {
        stats = record (c.stats) {
          winning_tickets = c.stats.winning_tickets + 1;
          neglected_value = min (c.stats.neglected_value + t.amount) api.max_balance;
        };
      };
      found = get_put t.channel_id _ m.channel_tickets;
      exact = k;
      queued = refl;
      winning = refl;
      neglected = omega arith;
      redeemed = refl;
      rejected = refl;
      lock = refl;
    }

    insert_occupied_lem :
        (got : List Ticket)
        → (insert_occupied api qs fuel t c m).0 ≡ ok got
        → (got ≡ (expected api t (contents c.queue.queue m.store)).0)
          × Inserted t c
              (expected api t (contents c.queue.queue m.store)).1
              got
              (insert_occupied api qs fuel t c m).1
    unfolding insert_occupied
    insert_occupied_lem got h = elim (Result-cases (qs.peek c.queue.queue m.store)) [
      | inr (x, p) ↦ ground (arith, p)
      | inl (none, p) ↦
          let ts : List Ticket = contents c.queue.queue m.store in
          let first = peek_lem c.queue.queue m.store none p in
          let e = expected-none api t ts first in
          let (same, i) =
            push_winning_lem [] t c m.store m got k
              (subst (AreOf t.channel_epoch) (sym (nil_of_head ts first)) tt) fits
              (ground (arith, p)) in
          (
            ground (arith, same, e),
            rw (p, insert_occupied) (recast (ground (arith, e)) (sym same) i),
          )
      | inl (some u, p) ↦
          let ts : List Ticket = contents c.queue.queue m.store in
          let first = peek_lem c.queue.queue m.store (some u) p in
          elim (Bool-cases (ltb u.channel_epoch t.channel_epoch)) [
            | inl older ↦
                let e = expected-newer api t u ts first older in
                let (same, i) = drain_and_push_lem got (ground (arith, p, older)) in
                (
                  ground (arith, same, e),
                  rw (p, insert_occupied, older) (recast (ground (arith, e)) (sym same) i),
                )
            | inr not_older ↦ elim (Bool-cases (ltb t.channel_epoch u.channel_epoch)) [
              | inl newer ↦
                  let e = expected-older api t u ts first newer in
                  let same : got ≡ t ∷ [] = ground (arith, p, not_older, newer, reject_older-ok) in
                  (
                    ground (arith, same, e),
                    rw (p, insert_occupied, not_older, newer)
                        (recast (ground (arith, e)) (sym same) reject_older_lem),
                  )
              | inr not_newer ↦
                  let e = expected-same api t u ts first not_older not_newer in
                  let epochs : u.channel_epoch ≡ t.channel_epoch =
                    ground (arith, not_older, not_newer) in
                  let (same, i) =
                    push_winning_lem [] t c m.store m got k
                      (subst (λ (n : ℕ). AreOf n ts) epochs
                        (AreOf-head c.queue.current_epoch ts u k.uniform (sym first)))
                      fits (ground (arith, p, not_older, not_newer)) in
                  (
                    ground (arith, same, e),
                    rw (p, insert_occupied, not_older, not_newer)
                        (recast (ground (arith, e)) (sym same) i),
                  )
            ]
          ]
    ]

    -- In a channel that has an entry with an exact adapter, an insertion that succeeds returns what
    -- it neglects and leaves the adapter exact: with an empty queue, or one of the ticket's epoch,
    -- the ticket is put in its place; a queue of an older epoch is neglected, and the ticket is
    -- queued alone; against a queue of a newer epoch the ticket itself is neglected. One more
    -- ticket has won, the neglected value has grown by the amounts returned, and the rest of the
    -- entry stays. The fuel is more than the number of tickets, and the amounts fit in a balance.
    pub insert_incoming_ticket-occupied :
        (got : List Ticket)
        → get t.channel_id m.channel_tickets ≡ some c
        → (insert_incoming_ticket api qs fuel t m).0 ≡ ok got
        → (got ≡ (expected api t (contents c.queue.queue m.store)).0)
          × Inserted t c
              (expected api t (contents c.queue.queue m.store)).1
              got
              (insert_incoming_ticket api qs fuel t m).1
    unfolding insert_incoming_ticket
    insert_incoming_ticket-occupied got g h =
        rw (g, insert_incoming_ticket)
          (insert_occupied_lem got (rw (g, insert_incoming_ticket) at h))
