-- ===== src/TicketManager/Tests/Manager.antt =====
-- The ticket manager at concrete inputs: insertion, neglection and reads.
use hopr_impls.Base.{ok, All, ◌≡◌, refl, false, some, List, [], ◌∷◌, arith}
use hopr_impls.Base.Keyed.{nat_key, get, insert, remove}
use hopr_impls.HoprApi.{Ticket, ChannelEntry}
use hopr_impls.TicketManager.Backend.Sorted.{sorted}
use hopr_impls.TicketManager.Queue.Traits.{
  oks, min_index_of, sum_matching, is_empty, default_total_value, place,
}
use hopr_impls.TicketManager.Queue.Sums.{total}
use hopr_impls.TicketManager.Queue.Cached.{
  add_value, push, pop, total_value, load, new, subtract_value, drain,
}
use hopr_impls.TicketManager.Queue.Value.{IsCached}
use hopr_impls.TicketManager.Backend.Memory
use hopr_impls.TicketManager.Backend.Memory.{MemoryStore, default_store, heap, take_least}
use hopr_impls.TicketManager.Backend.Laws.{memory_promise}
use hopr_impls.TicketManager.Manager.State.{ChannelTicketQueue, HoprTicketManager}
use hopr_impls.TicketManager.Manager.Insert.{
  insert_incoming_ticket, insert_occupied, insert_vacant, open_empty, push_winning, drain_and_push,
}
use hopr_impls.TicketManager.Manager.Expected.{expected}
use hopr_impls.TicketManager.Manager.Inserted.{Inserted, insert_incoming_ticket-occupied}
use hopr_impls.TicketManager.Manager.FirstTicket.{insert_incoming_ticket-vacant}
use hopr_impls.TicketManager.Manager.Neglect.{neglect_tickets, neglect_loop, neglect_one, max_index}
use hopr_impls.TicketManager.Manager.Neglected.{Neglected, neglect_tickets_lem, up_to, beyond}
use hopr_impls.TicketManager.Manager.Stats.{ChannelStats, unrealized_value, first_epoch_value}
use hopr_impls.TicketManager.Manager.Counted.{unrealized_value_lem, from_index}
use hopr_impls.TicketManager.Manager.Sync.{load_channel, prune}
use hopr_impls.TicketManager.Manager.Pruned.{outdated, kept, Loaded, IsRedeemable, load_channel_lem}
use hopr_impls.TicketManager.Manager.Returns.{memory-returns}
use hopr_impls.TicketManager.Tests.Data.{
  api, q, qs, store, manager, managed, adapter-IsCached, fifth, seventh, next_epoch, channel,
  api_total,
}

-- A ticket of the next epoch supersedes the two that are queued.
insert_incoming_ticket-occupied_example :
    (fifth ∷ seventh ∷ []
      ≡ (expected api next_epoch ((memory_promise api api_total).contents 0 store)).0)
    × Inserted api qs
        (memory_promise api api_total)
        next_epoch
        managed
        (expected api next_epoch ((memory_promise api api_total).contents 0 store)).1
        (fifth ∷ seventh ∷ [])
        (insert_incoming_ticket api qs 3 next_epoch manager).1
unfolding insert_incoming_ticket insert_occupied drain_and_push push_winning drain pop push
    Memory.pop Memory.peek Memory.push heap get insert remove subtract_value memory_promise sorted
    place take_least
insert_incoming_ticket-occupied_example =
    insert_incoming_ticket-occupied api qs (memory_promise api api_total) 3 next_epoch managed
      manager adapter-IsCached (omega arith) (omega arith) (omega arith) (fifth ∷ seventh ∷ []) refl
      refl

abbrev nothing : List Ticket
nothing = []

abbrev new_manager : HoprTicketManager MemoryStore
new_manager = record { channel_tickets = []; store = default_store }

insert_incoming_ticket-vacant_example :
    let m' = (insert_incoming_ticket api qs 1 fifth new_manager).1 in
    (nothing ≡ [])
    × (after : ChannelTicketQueue) × (get 1 m'.channel_tickets ≡ some after)
    × IsCached api q (memory_promise api api_total) after.queue m'.store
    × ((memory_promise api api_total).contents after.queue.queue m'.store ≡ fifth ∷ [])
    × (after.stats.neglected_value ≡ 0)
    × (after.stats.redeemed_value ≡ 0)
    × (after.stats.rejected_value ≡ 0)
    × (after.redeem_lock ≡ false)
unfolding insert_incoming_ticket insert_vacant open_empty new load is_empty push
    Memory.open_or_create_queue Memory.len Memory.iter_unordered Memory.push heap get insert remove
    oks
insert_incoming_ticket-vacant_example =
    insert_incoming_ticket-vacant api qs (memory_promise api api_total) 1 fifth new_manager nothing
      (omega arith) refl refl

neglect_tickets_lem_example :
    let m' = (neglect_tickets api q 3 1 (some 6) manager).1 in
    let top = max_index api (some 6) in
    (fifth ∷ [] ≡ up_to top ((memory_promise api api_total).contents 0 store))
    × (c' : ChannelTicketQueue) × (get 1 m'.channel_tickets ≡ some c')
    × Neglected api q
        (memory_promise api api_total)
        managed
        c'
        (beyond top ((memory_promise api api_total).contents 0 store))
        (fifth ∷ [])
        m'.store
unfolding neglect_tickets neglect_loop neglect_one pop Memory.pop Memory.peek heap get insert remove
    subtract_value memory_promise sorted place take_least
neglect_tickets_lem_example =
    neglect_tickets_lem api q (memory_promise api api_total) 3 1 (some 6) manager managed
      (fifth ∷ []) refl adapter-IsCached (omega arith) (omega arith) refl

unrealized_value_lem_example :
    some 20
    ≡ some (
        total
          (from_index (min_index_of (some 6)))
          ((memory_promise api api_total).contents 0 store))
unfolding unrealized_value first_epoch_value total_value default_total_value Memory.peek
    Memory.iter_unordered sum_matching heap get memory_promise sorted place take_least
unrealized_value_lem_example =
    unrealized_value_lem api q (memory_promise api api_total) manager 1 (some 6) (some 20) managed
      refl adapter-IsCached (omega arith) refl

abbrev stats : ChannelStats
stats = record {
  winning_tickets = 2;
  unredeemed_value = 30;
  rejected_value = 0;
  neglected_value = 0;
}

abbrev new_on_store : HoprTicketManager MemoryStore
new_on_store = record { channel_tickets = []; store = store }

-- The channel's ticket index has passed the first of the two tickets.
abbrev advanced : ChannelEntry
advanced = record channel { ticket_index = 6 }

load_channel_lem_example :
    (fifth ∷ [] ≡ outdated advanced ((memory_promise api api_total).contents 0 store))
    × Loaded api qs
        (memory_promise api api_total)
        1
        (kept advanced ((memory_promise api api_total).contents 0 store))
        (load_channel api 0 qs 3 advanced new_on_store).1
    × All (IsRedeemable advanced) (kept advanced ((memory_promise api api_total).contents 0 store))
unfolding load_channel prune new load add_value Memory.open_or_create_queue Memory.pop Memory.peek
    Memory.iter_unordered heap get insert remove oks memory_promise sorted place take_least
    Memory.len
load_channel_lem_example =
    load_channel_lem api qs (memory_promise api api_total) 0 3 advanced new_on_store 0 1
      (fifth ∷ []) refl (refl, (refl, tt)) ((omega arith, tt), (tt, tt)) (omega arith) (omega arith)
      refl

memory-returns_example :
    let queued = (memory_promise api api_total).contents 0 store in
    ((insert_incoming_ticket api qs 3 next_epoch manager).0 ≡ ok (expected api next_epoch queued).0)
    × ((neglect_tickets api q 3 1 (some 6) manager).0 ≡ ok (up_to (max_index api (some 6)) queued))
unfolding get memory_promise heap sorted place
memory-returns_example =
    memory-returns api api_total 3 next_epoch (some 6) managed manager refl adapter-IsCached
      (omega arith) (omega arith) (omega arith)
