-- ===== src/TicketManager/Manager/Returns.antt =====
-- On the memory store, whose operations cannot fail, the manager's methods return.
use hopr_impls.Base.{
  ℕ, zero, suc, ◌+◌, ◌≤◌, ◌<◌, ◌≡◌, refl, ◌∙◌, ap, true, Option, none, some, List, [], ok, is_ok,
  arith, length, Option-cases, Result-cases, inl, inr,
}
use hopr_impls.Base.Keyed.{nat_key, get}
use hopr_impls.HoprApi.{HoprApi, Ticket}
use hopr_impls.TicketManager.Queue.Cached.{ValueCachedQueue, push, pop, drain}
use hopr_impls.TicketManager.Backend.Memory
use hopr_impls.TicketManager.Backend.Memory.{
  MemoryStore, memory_store, memory_ticket_queue, heap, take_least, first_of,
}
use hopr_impls.TicketManager.Backend.Sorted.{IsTotal}
use hopr_impls.TicketManager.Backend.Laws.{memory_promise}
use hopr_impls.TicketManager.Queue.Sums.{total, amount}
use hopr_impls.TicketManager.Queue.Value.{IsCached}
use hopr_impls.TicketManager.Manager.Expected.{expected}
use hopr_impls.TicketManager.Manager.Inserted.{insert_incoming_ticket-occupied}
use hopr_impls.TicketManager.Manager.Neglected.{neglect_tickets_lem, up_to}
use hopr_impls.TicketManager.Manager.State.{ChannelTicketQueue, HoprTicketManager}
use hopr_impls.TicketManager.Manager.Insert.{
  push_winning, drain_and_push, reject_older, insert_occupied, insert_incoming_ticket,
}
use hopr_impls.TicketManager.Manager.Neglect.{neglect_one, neglect_loop, neglect_tickets, max_index}

module _ (api : HoprApi) where
  pop-returns :
      (v : ValueCachedQueue) (s : MemoryStore)
      → is_ok (pop api (memory_ticket_queue api) v s).0 ≡ true
  unfolding pop Memory.pop Memory.peek
  pop-returns v s = elim (Option-cases (first_of (take_least api (heap v.queue s)))) [
    | inl e ↦ rw (e, pop) refl
    | inr (t, e) ↦ rw (e, pop) refl
  ]

  drain-returns :
      (fuel : ℕ) (v : ValueCachedQueue) (s : MemoryStore)
      → is_ok (drain api (memory_ticket_queue api) fuel v s).0 ≡ true
  unfolding drain
  drain-returns zero v s = refl
  drain-returns (suc fuel) v s = elim (Result-cases (pop api (memory_ticket_queue api) v s).0) [
    | inr (x, p) ↦ ground (arith, p, pop-returns v s)
    | inl (none, p) ↦ ground (arith, p)
    | inl (some t, p) ↦ ground (
      arith,
      p,
      drain-returns fuel (pop api (memory_ticket_queue api) v s).1
          (pop api (memory_ticket_queue api) v s).2,
    )
  ]

  push_winning-returns :
      (neg : List Ticket) (t : Ticket) (c : ChannelTicketQueue) (s : MemoryStore)
      (m : HoprTicketManager MemoryStore)
      → is_ok (push_winning api (memory_store api) neg t c s m).0 ≡ true
  unfolding push_winning push Memory.push
  push_winning-returns neg t c s m = refl

  drain_and_push-returns :
      (fuel : ℕ) (t : Ticket) (c : ChannelTicketQueue) (m : HoprTicketManager MemoryStore)
      → is_ok (drain_and_push api (memory_store api) fuel t c m).0 ≡ true
  unfolding drain_and_push
  drain_and_push-returns fuel t c m =
      elim (Result-cases (drain api (memory_ticket_queue api) fuel c.queue m.store).0) [
        | inr (x, d) ↦ ground (arith, d, drain-returns fuel c.queue m.store)
        | inl (neg, d) ↦ rw (d, drain_and_push) (push_winning-returns neg t _ _ m)
      ]

  neglect_one-returns :
      (c : ChannelTicketQueue) (s : MemoryStore)
      → is_ok (neglect_one api (memory_ticket_queue api) c s).0 ≡ true
  unfolding neglect_one
  neglect_one-returns c s = elim (Result-cases (pop api (memory_ticket_queue api) c.queue s).0) [
    | inr (x, p) ↦ ground (arith, p, pop-returns c.queue s)
    | inl (popped, p) ↦ ground (arith, p)
  ]

  neglect_loop-returns :
      (fuel top : ℕ) (c : ChannelTicketQueue) (s : MemoryStore)
      → is_ok (neglect_loop api (memory_ticket_queue api) fuel top c s).0 ≡ true
  unfolding neglect_loop Memory.peek
  neglect_loop-returns zero top c s = refl
  neglect_loop-returns (suc fuel) top c s =
      let q = memory_ticket_queue api in
      elim (Result-cases (neglect_one api q c s).0) [
        | inr (x, p) ↦ ground (arith, p, neglect_one-returns c s)
        | inl (popped, p) ↦
            let c' : ChannelTicketQueue = (neglect_one api q c s).1 in
            let s' : MemoryStore = (neglect_one api q c s).2 in
            elim (Result-cases (neglect_loop api q fuel top c' s').0) [
              | inr (x, r) ↦ ground (arith, r, neglect_loop-returns fuel top c' s')
              | inl (ts, r) ↦ ground (arith, p, r)
            ]
      ]

  insert_occupied-returns :
      (fuel : ℕ) (t : Ticket) (c : ChannelTicketQueue) (m : HoprTicketManager MemoryStore)
      → is_ok (insert_occupied api (memory_store api) fuel t c m).0 ≡ true
  unfolding insert_occupied reject_older Memory.peek
  insert_occupied-returns fuel t c m =
      ground (arith, push_winning-returns [] t c m.store m, drain_and_push-returns fuel t c m)

  insert_incoming_ticket-returns :
      (fuel : ℕ) (t : Ticket) (c : ChannelTicketQueue) (m : HoprTicketManager MemoryStore)
      → get t.channel_id m.channel_tickets ≡ some c
      → is_ok (insert_incoming_ticket api (memory_store api) fuel t m).0 ≡ true
  unfolding insert_incoming_ticket
  insert_incoming_ticket-returns fuel t c m g =
      ground (arith, g, insert_occupied-returns fuel t c m)

  neglect_tickets-returns :
      (fuel id : ℕ) (up_to_index : Option ℕ) (c : ChannelTicketQueue)
      (m : HoprTicketManager MemoryStore)
      → get id m.channel_tickets ≡ some c
      → is_ok (neglect_tickets api (memory_ticket_queue api) fuel id up_to_index m).0 ≡ true
  unfolding neglect_tickets
  neglect_tickets-returns fuel id up_to_index c m g =
      ground (arith, g, neglect_loop-returns fuel (max_index api up_to_index) c m.store)

  -- On the memory store, with a total order of tickets, an insertion and a neglection on a channel
  -- whose entry has an exact adapter return with every fuel above the number of queued tickets, and
  -- what they return does not depend on it: the insertion the tickets that it neglects by the rule
  -- on epochs, the neglection all tickets at the front of the queue up to the given index. The
  -- amounts fit in a balance.
  pub memory-returns :
      (total_order : IsTotal api) (fuel : ℕ) (t : Ticket) (up_to_index : Option ℕ)
      (c : ChannelTicketQueue) (m : HoprTicketManager MemoryStore)
      → get t.channel_id m.channel_tickets ≡ some c
      → let lawful = memory_promise api total_order in
        let queued = lawful.contents c.queue.queue m.store in
        IsCached api (memory_ticket_queue api) lawful c.queue m.store
        → length queued < fuel
        → t.amount + total amount queued ≤ api.max_balance
        → c.stats.neglected_value + t.amount + total amount queued ≤ api.max_balance
        → ((insert_incoming_ticket api (memory_store api) fuel t m).0
            ≡ ok (expected api t queued).0)
          × ((neglect_tickets api (memory_ticket_queue api) fuel t.channel_id up_to_index m).0
              ≡ ok (up_to (max_index api up_to_index) queued))
  memory-returns total_order fuel t up_to_index c m g k lt fits counted =
      let lawful = memory_promise api total_order in
      let q = memory_ticket_queue api in
      (
        elim (Result-cases (insert_incoming_ticket api (memory_store api) fuel t m).0) [
          | inr (x, e) ↦ ground (arith, e, insert_incoming_ticket-returns fuel t c m g)
          | inl (ts, e) ↦
              e
              ∙ ap ok
                  (insert_incoming_ticket-occupied api (memory_store api) lawful fuel t c m k lt
                    fits counted ts g e).0
        ],
        elim (Result-cases (neglect_tickets api q fuel t.channel_id up_to_index m).0) [
          | inr (x, e) ↦
              ground (arith, e, neglect_tickets-returns fuel t.channel_id up_to_index c m g)
          | inl (ts, e) ↦
              e
              ∙ ap ok
                  (neglect_tickets_lem api q lawful fuel t.channel_id up_to_index m c ts g k lt
                    (omega arith) e).0
        ],
      )
