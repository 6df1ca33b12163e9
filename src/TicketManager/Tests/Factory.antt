-- ===== src/TicketManager/Tests/Factory.antt =====
-- The ticket factory at concrete inputs.
use hopr_impls.Base.{
  ℕ, ◌-◌, ◌≡◌, ◌≢◌, ◌⊎◌, ◌≤◌, ◌<◌, min, refl, none, some, List, [], ◌∷◌, err, true, any, arith, inl,
  is_ok, if◌then◌else◌,
}
use hopr_impls.Base.Keyed.{get, insert, remove}
use hopr_impls.HoprApi.{ChannelEntry, is_open, balance_mul}
use hopr_impls.TicketManager.Errors.{TicketManagerError}
use hopr_impls.TicketManager.Index.Defs.{mark_clean, current, increment_at_least, new, finish, set}
use hopr_impls.TicketManager.Cache.Defs.{
  save, save_entries, save_entry, delete_removed, next_at_least, upsert,
}
use hopr_impls.TicketManager.Backend.Memory.{
  MemoryStore, memory_index_store, save_outgoing_index, delete_outgoing_index, load_outgoing_index,
  iter_outgoing_indices,
}
use hopr_impls.TicketManager.Backend.Laws.{memory_index_promise}
use hopr_impls.TicketManager.Factory.Defs.{
  HoprTicketFactory, TicketBuilder, key, new_multihop_ticket, next_outgoing_ticket_index, or_zero,
  purge, load_channels, sync_from_outgoing_channels, save_outgoing_indices, is_current,
}
use hopr_impls.TicketManager.Factory.Defs
use hopr_impls.TicketManager.Factory.Index.{next_outgoing_ticket_index_increases, run_calls}
use hopr_impls.TicketManager.Factory.Sync.{sync_from_outgoing_channels-stored, restart_resumes}
use hopr_impls.TicketManager.Factory.Ticket.{
  new_multihop_ticket-ok, new_multihop_ticket_cases, Refused,
}
use hopr_impls.TicketManager.Tests.Data.{api, tracker, store, channel, entry}

abbrev factory : HoprTicketFactory MemoryStore
factory = record { out_idx_tracker = tracker; store = store }

abbrev channels : List ChannelEntry
channels = channel ∷ []

next_outgoing_ticket_index_increases_example :
    (next_outgoing_ticket_index api channel tracker).1
    < (next_outgoing_ticket_index api channel
        (run_calls api channels (next_outgoing_ticket_index api channel tracker).0)).1
unfolding next_outgoing_ticket_index next_at_least increment_at_least finish get
next_outgoing_ticket_index_increases_example =
    next_outgoing_ticket_index_increases api 5 channel channel channels tracker (λ j. ground arith)
      (omega arith, (omega arith, (omega arith, tt))) (omega arith) refl ((λ e. ground arith), tt)
      (omega arith)

sync_from_outgoing_channels-stored_example :
    memory_index_promise.stored
      (2, 1)
      (sync_from_outgoing_channels api memory_index_store channels factory).1.store
    ≡ (if any (is_current (2, 1)) channels then memory_index_promise.stored (2, 1) store else none)
unfolding sync_from_outgoing_channels iter_outgoing_indices purge load_channels any
    delete_outgoing_index load_outgoing_index
sync_from_outgoing_channels-stored_example =
    sync_from_outgoing_channels-stored memory_index_store memory_index_promise api channels factory
      (2, 1) refl

restart_resumes_example :
    current api entry
    ≤ (next_outgoing_ticket_index api channel
        (sync_from_outgoing_channels api memory_index_store channels (
          Defs.new
            (save_outgoing_indices api memory_index_store factory).1.store)).1.out_idx_tracker).1
unfolding sync_from_outgoing_channels iter_outgoing_indices purge load_channels any
    delete_outgoing_index load_outgoing_index save_outgoing_indices save save_entries save_entry
    delete_removed save_outgoing_index get insert remove current Defs.new upsert set new mark_clean
restart_resumes_example =
    restart_resumes memory_index_store memory_index_promise api channels factory channel entry
      (refl, tt) refl refl (inl refl) refl refl (inl refl) refl (omega arith) (omega arith)

abbrev position : ℕ
position = 3

abbrev builder : TicketBuilder
builder = record { counterparty = 9; balance = 20; index = 5; win_prob = 1; channel_epoch = 1 }

new_multihop_ticket-ok_example :
    (position ≢ 1)
    × (is_open channel.status ≡ true)
    × (api.div_f64 (balance_mul api 10 (position - 1)) 1 ≡ some builder.balance)
    × (builder.balance ≤ channel.balance)
    × (min channel.ticket_index api.max_ticket_index ≤ builder.index)
    × (next_outgoing_ticket_index api channel tracker
        ≡ ((new_multihop_ticket api channel position 1 10 tracker).1, builder.index))
    × (builder.counterparty ≡ channel.destination)
    × (builder.win_prob ≡ 1)
    × (builder.channel_epoch ≡ channel.channel_epoch)
unfolding new_multihop_ticket next_outgoing_ticket_index next_at_least increment_at_least finish get
new_multihop_ticket-ok_example =
    new_multihop_ticket-ok api channel position 1 10 tracker builder refl (omega arith)
      (omega arith)

new_multihop_ticket_cases_example :
    (is_ok (new_multihop_ticket api channel 1 1 10 tracker).0 ≡ true)
    ⊎ ((e : TicketManagerError) × Refused api channel 1 1 10 tracker e
        × (new_multihop_ticket api channel 1 1 10 tracker ≡ (err e, tracker)))
new_multihop_ticket_cases_example = new_multihop_ticket_cases api channel 1 1 10 tracker
