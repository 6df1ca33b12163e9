-- ===== src/TicketManager/Backend/Laws.antt =====
-- ticket-manager/src/backend/memory.rs keeps the promises of the two traits it implements.
use hopr_impls.Base.{
  ℕ, zero, suc, ◌≡◌, ◌≢◌, refl, true, none, some, List, [], ◌∷◌, ok, arith, map, ==_iff, ==_refl,
  any, length, Option, Option-cases, Result-cases, Bool-cases, is_ok, inl, inr, if◌then◌else◌, ◌==◌,
  tail, head?, subst, ◌∙◌, Result,
}
use mathlib.Core.List.{Perm}
use hopr_impls.Base.Keyed.{
  get, remove, get-insert, get-remove, same_pair, same_pair_iff, nat_key, pair_key,
}
use hopr_impls.HoprApi.{HoprApi, Ticket}
use hopr_impls.TicketManager.IndexStore.{IsIndexStore}
use hopr_impls.TicketManager.Queue.Traits.{IsTicketQueue, oks, place, drain}
use hopr_impls.TicketManager.Queue.Drain.{drain_lem}
use hopr_impls.TicketManager.Backend.Sorted.{
  IsTotal, sorted, sorted-Perm, length-sorted, first_lem, others_lem,
}
use hopr_impls.TicketManager.Backend.Memory.{
  MemoryStore, take_least, others_of, heap, put_heap, push, pop, len, peek, iter_unordered,
  memory_ticket_queue, memory_index_store, load_outgoing_index, save_outgoing_index,
  delete_outgoing_index, iter_outgoing_indices, keys_of, delete_queue, open_or_create_queue,
}

pub oks-map : (ts : List Ticket) → oks (map ok ts) ≡ ts
unfolding oks
oks-map [] = refl
oks-map (t ∷ ts) = rw (oks-map ts) refl

pub heap-put :
    (h j : ℕ) (ts : List Ticket) (s : MemoryStore)
    → heap j (put_heap h ts s) ≡ (if h == j then ts else heap j s)
unfolding heap
heap-put h j ts s = ground (arith, get-insert h j ts s.heaps)

-- A key with an entry is listed.
pub any-keys :
    {V : Type 0} (k : ℕ × ℕ) (m : List ((ℕ × ℕ) × V))
    → get k m ≢ none
    → any (same_pair k) (keys_of m) ≡ true
unfolding get any
any-keys k [] h = absurd (h refl)
any-keys k ((j, v) ∷ m) h = ground (arith, any-keys k m, same_pair_iff j k, same_pair_iff k j)

sorted-put :
    (api : HoprApi) (h j : ℕ) (ts us : List Ticket) (s : MemoryStore)
    → sorted api ts ≡ us
    → sorted api (heap j (put_heap h ts s)) ≡ (if h == j then us else sorted api (heap j s))
sorted-put api h j ts us s e = elim (Bool-cases (h == j)) [
  | inl same ↦ rw (heap-put h j ts s, same) e
  | inr other ↦ rw (heap-put h j ts s, other) refl
]

if_here :
    {A : Type 0} (h j : ℕ) (f : ℕ → A) (a : A)
    → (if h == j then f h else a) ≡ (if h == j then f j else a)
if_here h j f a = ground (arith, ==_iff h j)

module _ (api : HoprApi) (total : IsTotal api) where
  pub sorted-push :
      (h j : ℕ) (t : Ticket) (s : MemoryStore)
      → sorted api (heap j (push h t s).1)
        ≡ (if h == j then place api t (sorted api (heap j s)) else sorted api (heap j s))
  unfolding push sorted
  sorted-push h j t s =
      sorted-put api h j (t ∷ heap h s) (place api t (sorted api (heap h s))) s refl
      ∙ if_here h j (λ k. place api t (sorted api (heap k s))) (sorted api (heap j s))

  pub sorted-pop :
      (h j : ℕ) (s : MemoryStore)
      → sorted api (heap j (pop api h s).1)
        ≡ (if h == j then tail (sorted api (heap j s)) else sorted api (heap j s))
  unfolding pop
  sorted-pop h j s =
      sorted-put api h j (others_of (take_least api (heap h s))) (tail (sorted api (heap h s))) s
        (others_lem api total (heap h s))
      ∙ if_here h j (λ k. tail (sorted api (heap k s))) (sorted api (heap j s))

  pub len-sorted :
      (h : ℕ) (s : MemoryStore) (n : ℕ) → len h s ≡ ok n → n ≡ length (sorted api (heap h s))
  unfolding len
  len-sorted h s n e = ground (arith, e, length-sorted api (heap h s))

  pub pop-first :
      (h : ℕ) (s : MemoryStore) (r : Option Ticket)
      → (pop api h s).0 ≡ ok r
      → r ≡ head? (sorted api (heap h s))
  unfolding pop
  pop-first h s r e = ground (arith, e, first_lem api total (heap h s))

  pub peek-first :
      (h : ℕ) (s : MemoryStore) (r : Option Ticket)
      → peek api h s ≡ ok r
      → r ≡ head? (sorted api (heap h s))
  unfolding peek
  peek-first h s r e = ground (arith, e, first_lem api total (heap h s))

  pub iter-Perm :
      (h : ℕ) (s : MemoryStore) (rs : List (Result ℕ Ticket))
      → iter_unordered h s ≡ ok rs
      → Perm (oks rs) (sorted api (heap h s))
  unfolding iter_unordered
  iter-Perm h s rs e =
      subst (λ (us : List Ticket). Perm us (sorted api (heap h s)))
        (ground (arith, e, oks-map (heap h s))) (sorted-Perm api (heap h s))

  -- The contents of a queue are the tickets of its heap, in the natural order.
  unfoldable pub memory_promise : IsTicketQueue api (memory_ticket_queue api)
  unfolding push pop
  memory_promise = record {
    contents = λ h s. sorted api (heap h s);
    len_lem = len-sorted;
    contents-push = sorted-push;
    pop_lem = pop-first;
    contents-pop = sorted-pop;
    peek_lem = peek-first;
    iter_lem = iter-Perm;
  }

unfoldable pub memory_index_promise : IsIndexStore memory_index_store
unfolding load_outgoing_index save_outgoing_index delete_outgoing_index iter_outgoing_indices
memory_index_promise = record {
  stored = λ k s. get k s.out_indices;
  load_lem = λ k s r e. ground arith;
  stored-save = λ k j i s. get-insert k j i s.out_indices;
  stored-delete = λ k j s. get-remove k j s.out_indices;
  iter_lem = λ s ks k e h. ground (arith, any-keys k s.out_indices h);
}

-- The memory store keeps what the trait `OutgoingIndexStore` promises of a map.
pub memory_index_lem : IsIndexStore memory_index_store
memory_index_lem = memory_index_promise

-- A drain of the memory store returns, and leaves the map of queues alone.
drain-tickets :
    (api : HoprApi) (fuel h : ℕ) (s : MemoryStore)
    → (is_ok (drain (memory_ticket_queue api) fuel h s).0 ≡ true)
      × ((drain (memory_ticket_queue api) fuel h s).1.tickets ≡ s.tickets)
unfolding drain pop
drain-tickets api zero h s = (refl, refl)
drain-tickets api (suc fuel) h s =
    ground (arith, drain-tickets api fuel h (put_heap h (others_of (take_least api (heap h s))) s))

drain-all :
    (api : HoprApi) (total : IsTotal api) (h j : ℕ) (s : MemoryStore)
    → let (r, s') = drain (memory_ticket_queue api) (suc (length (heap h s))) h s in
      (r ≡ ok (sorted api (heap h s)))
      × (sorted api (heap j s') ≡ (if h == j then [] else sorted api (heap j s)))
unfolding memory_promise
drain-all api total h j s =
    let fuel = suc (length (heap h s)) in
    elim (Result-cases (drain (memory_ticket_queue api) fuel h s).0) [
      | inl (ts, d) ↦
          let l =
            drain_lem api (memory_ticket_queue api) (memory_promise api total) fuel h j s ts
              (ground (arith, length-sorted api (heap h s))) d in
          rw (d, l.0) (refl, l.1)
      | inr (e, d) ↦ ground (arith, d, drain-tickets api fuel h s)
    ]

-- Deleting the queue of a channel returns its tickets in the natural order; afterwards its heap is
-- empty, the channel has no queue, and the tickets of other heaps and other channels' queues are as
-- they were.
pub delete_queue_lem :
    (api : HoprApi) (total : IsTotal api) (s : MemoryStore) (c h : ℕ)
    → get c s.tickets ≡ some h
    → let (r, s') = delete_queue api c s in
      (r ≡ ok (sorted api (heap h s)))
      × ((j : ℕ) → sorted api (heap j s') ≡ (if h == j then [] else sorted api (heap j s)))
      × ((d : ℕ) → get d s'.tickets ≡ (if c == d then none else get d s.tickets))
unfolding delete_queue heap
delete_queue_lem api total s c h p =
    let cleared : MemoryStore = record s { tickets = remove c s.tickets } in
    let fuel = suc (length (heap h s)) in
    rw p (
      (drain-all api total h h cleared).0,
      (λ j. (drain-all api total h j cleared).1),
      (λ d. rw ((drain-tickets api fuel h cleared).1) (get-remove c d s.tickets)),
    )

-- A queue that is opened again is the same queue, and the second opening changes nothing.
pub reopen_shares :
    (s : MemoryStore) (c : ℕ)
    → let (r, s') = open_or_create_queue c s in
      let (r', t) = open_or_create_queue c s' in (r' ≡ r) × (t ≡ s')
unfolding open_or_create_queue
reopen_shares s c = elim (Option-cases (get c s.tickets)) [
  | inl p ↦ rw (p, get-insert c c s.next_handle s.tickets, ==_refl c) (refl, refl)
  | inr (h, p) ↦ rw (p, p) (refl, refl)
]
