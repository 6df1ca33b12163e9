-- ===== src/TicketManager/Backend/Memory.antt =====
-- ticket-manager/src/backend/memory.rs: `MemoryStore` and `MemoryTicketQueue`. The queue of a
-- channel is shared by `Arc`, so a queue is a handle into `heaps`; a handle that was never pushed
-- to is an empty heap (`or_default`), and `next_handle` is the next allocation. A `BinaryHeap` of
-- `Reverse` tickets is a list of tickets in no particular order: `push` adds a ticket, `peek` and
-- `pop` look for one that is least by `ticket_le`, and `iter` meets them as they are. How the
-- standard library arranges them in an array is not modelled.
use hopr_impls.Base.{
  ℕ, suc, Option, none, some, List, [], ◌∷◌, Result, ok, Exec, map, length, if◌then◌else◌,
}
use hopr_impls.Base.Keyed.{get, insert, remove, nat_key, pair_key}
use hopr_impls.HoprApi.{HoprApi, Ticket}
use hopr_impls.TicketManager.IndexStore.{OutgoingIndexStore}
use hopr_impls.TicketManager.Queue.Traits.{TicketQueue, TicketQueueStore, drain}

pub record MemoryStore : Type 0 where
  pub tickets : List (ℕ × ℕ)
  pub heaps : List (ℕ × List Ticket)
  pub out_indices : List ((ℕ × ℕ) × ℕ)
  pub next_handle : ℕ

-- `MemoryStore::default`
abbrev pub default_store : MemoryStore
default_store = record { tickets = []; heaps = []; out_indices = []; next_handle = 0 }

abbrev pub or_empty : Option (List Ticket) → List Ticket
or_empty none = []
or_empty (some ts) = ts

unfoldable pub heap : ℕ → MemoryStore → List Ticket
heap h s = or_empty (get h s.heaps)

abbrev pub put_heap : ℕ → List Ticket → MemoryStore → MemoryStore
put_heap h ts s = record s { heaps = insert h ts s.heaps }

-- A least ticket, and the other ones.
abbrev pub with_least : HoprApi → Ticket → Option (Ticket × List Ticket) → Ticket × List Ticket
with_least api t none = (t, [])
with_least api t (some (u, us)) = if api.ticket_le t u then (t, u ∷ us) else (u, t ∷ us)

unfoldable pub take_least : HoprApi → List Ticket → Option (Ticket × List Ticket)
take_least api [] = none
take_least api (t ∷ ts) = some (with_least api t (take_least api ts))

abbrev pub first_of : Option (Ticket × List Ticket) → Option Ticket
first_of none = none
first_of (some (t, ts)) = some t

abbrev pub others_of : Option (Ticket × List Ticket) → List Ticket
others_of none = []
others_of (some (t, ts)) = ts

unfoldable pub len : ℕ → MemoryStore → Result ℕ ℕ
len h s = ok (length (heap h s))

unfoldable pub push : ℕ → Ticket → Exec MemoryStore ℕ (Unit {0})
push h t s = (ok tt, put_heap h (t ∷ heap h s) s)

unfoldable pub pop : HoprApi → ℕ → Exec MemoryStore ℕ (Option Ticket)
pop api h s = (
  ok (first_of (take_least api (heap h s))),
  put_heap h (others_of (take_least api (heap h s))) s,
)

unfoldable pub peek : HoprApi → ℕ → MemoryStore → Result ℕ (Option Ticket)
peek api h s = ok (first_of (take_least api (heap h s)))

unfoldable pub iter_unordered : ℕ → MemoryStore → Result ℕ (List (Result ℕ Ticket))
iter_unordered h s = ok (map ok (heap h s))

abbrev pub memory_ticket_queue : HoprApi → TicketQueue MemoryStore
memory_ticket_queue api = record {
  len = len;
  push = push;
  pop = pop api;
  peek = peek api;
  iter_unordered = iter_unordered;
}

abbrev pub open_entry : ℕ → Option ℕ → Exec MemoryStore ℕ ℕ
open_entry c none s = (
  ok s.next_handle,
  record s { tickets = insert c s.next_handle s.tickets; next_handle = suc s.next_handle },
)
open_entry c (some h) s = (ok h, s)

unfoldable pub open_or_create_queue : ℕ → Exec MemoryStore ℕ ℕ
open_or_create_queue c s = open_entry c (get c s.tickets) s

-- The loop of `drain` ends with the heap: its length and one more bound the calls of `pop`.
abbrev pub drain_entry : HoprApi → ℕ → Option ℕ → Exec MemoryStore ℕ (List Ticket)
drain_entry api c none s = (ok [], s)
drain_entry api c (some h) s =
    drain (memory_ticket_queue api) (suc (length (heap h s))) h
      (record s { tickets = remove c s.tickets })

unfoldable pub delete_queue : HoprApi → ℕ → Exec MemoryStore ℕ (List Ticket)
delete_queue api c s = drain_entry api c (get c s.tickets) s

abbrev pub keys_of {ℓ} : {K V : Type ℓ} → List (K × V) → List K
keys_of [] = []
keys_of ((k, v) ∷ m) = k ∷ keys_of m

unfoldable pub iter_queues : MemoryStore → Result ℕ (List ℕ)
iter_queues s = ok (keys_of s.tickets)

abbrev pub memory_store : HoprApi → TicketQueueStore MemoryStore
memory_store api = record {
  queue = memory_ticket_queue api;
  open_or_create_queue = open_or_create_queue;
  delete_queue = delete_queue api;
  iter_queues = iter_queues;
}

unfoldable pub load_outgoing_index : ℕ × ℕ → MemoryStore → Result ℕ (Option ℕ)
load_outgoing_index k s = ok (get k s.out_indices)

unfoldable pub save_outgoing_index : ℕ × ℕ → ℕ → Exec MemoryStore ℕ (Unit {0})
save_outgoing_index k i s = (ok tt, record s { out_indices = insert k i s.out_indices })

unfoldable pub delete_outgoing_index : ℕ × ℕ → Exec MemoryStore ℕ (Unit {0})
delete_outgoing_index k s = (ok tt, record s { out_indices = remove k s.out_indices })

unfoldable pub iter_outgoing_indices : MemoryStore → Result ℕ (List (ℕ × ℕ))
iter_outgoing_indices s = ok (keys_of s.out_indices)

abbrev pub memory_index_store : OutgoingIndexStore MemoryStore
memory_index_store = record {
  load_outgoing_index = load_outgoing_index;
  save_outgoing_index = save_outgoing_index;
  delete_outgoing_index = delete_outgoing_index;
  iter_outgoing_indices = iter_outgoing_indices;
}
