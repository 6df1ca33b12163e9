-- ===== src/TicketManager/Tests/Data.antt =====
-- Concrete inputs: an instance of what `hopr_api` provides, stores, tickets and channels.
use hopr_impls.Base.{
  ◌≡◌, ◌^◌, ◌-◌, ◌/◌, refl, true, false, ◌&&◌, ◌||◌, none, some, [], ◌∷◌, err, arith, ltb, leb,
  ◌==◌, if◌then◌else◌,
}
use hopr_impls.Base.Keyed.{get}
use hopr_impls.HoprApi.{HoprApi, Ticket, ChannelEntry, open_channel}
use hopr_impls.TicketManager.Index.Defs.{OutgoingIndexEntry}
use hopr_impls.TicketManager.IndexStore.{OutgoingIndexStore, IsIndexStore}
use hopr_impls.TicketManager.Cache.Defs.{OutgoingIndexCache}
use hopr_impls.TicketManager.Queue.Traits.{TicketQueue, TicketQueueStore, IsTicketQueue, place}
use hopr_impls.TicketManager.Queue.Cached.{ValueCachedQueue}
use hopr_impls.TicketManager.Queue.Value.{IsCached}
use hopr_impls.TicketManager.Backend.Memory.{
  MemoryStore, heap, memory_ticket_queue, memory_store, memory_index_store, take_least,
}
use hopr_impls.TicketManager.Backend.Sorted.{IsTotal, sorted}
use hopr_impls.TicketManager.Backend.Laws.{memory_promise, memory_index_promise}
use hopr_impls.TicketManager.Manager.State.{ChannelTicketQueue, HoprTicketManager}

-- A winning probability is a percentage here.
abbrev pub api : HoprApi
api = record {
  max_ticket_index = 2 ^ 48 - 1;
  max_balance = 2 ^ 96;
  ticket_le = λ t u.
      ltb t.channel_epoch u.channel_epoch
      || (t.channel_epoch == u.channel_epoch && leb t.index u.index);
  ticket_eq = λ t u.
      t.channel_id == u.channel_id
      && t.channel_epoch == u.channel_epoch
      && t.index == u.index
      && t.amount == u.amount
      && t.body == u.body;
  closure_time_passed = λ c now. false;
  div_f64 = λ value prob. if prob == 0 then none else some (value / prob);
}

pub ticket_eq_lem : (t u : Ticket) → api.ticket_eq t u ≡ true → t ≡ u
ticket_eq_lem t u h = ground arith

pub api_total : IsTotal api
api_total t u = ground arith

abbrev pub fifth : Ticket
fifth = record { channel_id = 1; channel_epoch = 1; index = 5; amount = 10; body = 0 }

abbrev pub seventh : Ticket
seventh = record { channel_id = 1; channel_epoch = 1; index = 7; amount = 20; body = 0 }

abbrev pub next_epoch : Ticket
next_epoch = record { channel_id = 1; channel_epoch = 2; index = 0; amount = 7; body = 0 }

abbrev pub channel : ChannelEntry
channel = record {
  id = 1;
  destination = 9;
  balance = 100;
  ticket_index = 4;
  channel_epoch = 1;
  status = open_channel;
}

abbrev pub entry : OutgoingIndexEntry
entry = record { index = 5; is_dirty = true }

abbrev pub tracker : OutgoingIndexCache
tracker = record { cache = ((1, 1), entry) ∷ []; removed = [] }

-- The queue of channel 1 holds two tickets.
abbrev pub store : MemoryStore
store = record {
  tickets = (1, 0) ∷ [];
  heaps = (0, fifth ∷ seventh ∷ []) ∷ [];
  out_indices = ((1, 1), 3) ∷ ((2, 1), 8) ∷ [];
  next_handle = 1;
}

abbrev pub q : TicketQueue MemoryStore
q = memory_ticket_queue api

abbrev pub qs : TicketQueueStore MemoryStore
qs = memory_store api

abbrev pub adapter : ValueCachedQueue
adapter = record { queue = 0; value_cache = (1, 30) ∷ []; current_epoch = some 1 }

abbrev pub managed : ChannelTicketQueue
managed = record {
  queue = adapter;
  stats = record {
    winning_tickets = 2;
    redeemed_value = 0;
    neglected_value = 0;
    rejected_value = 0;
  };
  redeem_lock = false;
}

abbrev pub manager : HoprTicketManager MemoryStore
manager = record { channel_tickets = (1, managed) ∷ []; store = store }

pub adapter-IsCached : IsCached api q (memory_promise api api_total) adapter store
unfolding memory_promise sorted place take_least heap get
adapter-IsCached = record { exact = λ epoch. ground arith; uniform = (λ e. cc, (refl, (refl, tt))) }

-- A queue whose pushes fail, and an index store whose writes fail.
abbrev pub read_only : TicketQueue MemoryStore
read_only = record q { push = λ h t s. (err 3, s) }

abbrev pub read_only_promise : IsTicketQueue api read_only
read_only_promise =
    let p = memory_promise api api_total in
    record {
      contents = p.contents;
      len_lem = p.len_lem;
      contents-push = λ h j t s. refl;
      pop_lem = p.pop_lem;
      contents-pop = p.contents-pop;
      peek_lem = p.peek_lem;
      iter_lem = p.iter_lem;
    }

abbrev pub read_only_indices : OutgoingIndexStore MemoryStore
read_only_indices = record memory_index_store { save_outgoing_index = λ k i s. (err 3, s) }

abbrev pub read_only_indices-IsIndexStore : IsIndexStore read_only_indices
read_only_indices-IsIndexStore =
    let p = memory_index_promise in
    record {
      stored = p.stored;
      load_lem = p.load_lem;
      stored-save = λ k j i s. refl;
      stored-delete = p.stored-delete;
      iter_lem = p.iter_lem;
    }
