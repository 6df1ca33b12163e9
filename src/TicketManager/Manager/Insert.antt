-- ===== src/TicketManager/Manager/Insert.antt =====
-- ticket-manager/src/manager.rs: `insert_incoming_ticket`. The fuel of the drain inside bounds the
-- number of tickets in the queue.
use hopr_impls.Base.{
  ℕ, ◌+◌, true, false, none, some, List, [], ◌∷◌, Result, ok, err, if◌then◌else◌, ltb,
}
use hopr_impls.Base.Keyed.{nat_key, get}
use hopr_impls.HoprApi.{HoprApi, Ticket, balance_add}
use hopr_impls.TicketManager.Errors.{TicketManagerError, other, queue_not_empty}
use hopr_impls.TicketManager.Queue.Traits.{TicketQueueStore, is_empty}
use hopr_impls.TicketManager.Queue.Cached.{ValueCachedQueue, new, push, drain}
use hopr_impls.TicketManager.Manager.State.{
  ChannelTicketQueue, HoprTicketManager, Outcome, store_failed, from_queue, put, sum_amounts,
}

module _ (api : HoprApi) {S : Type 0} (qs : TicketQueueStore S) where
  -- The end of the occupied case: push, count, return what was neglected.
  unfoldable pub push_winning :
      List Ticket → Ticket → ChannelTicketQueue → S → HoprTicketManager S → Outcome S (List Ticket)
  push_winning neglected t c s m =
      let (r, v', s') = push api qs.queue c.queue t s in
      elim r [
        | err e ↦ (err (store_failed e), put t.channel_id (record c { queue = v' }) s' m)
        | ok _ ↦ (
          ok neglected,
          put t.channel_id
              (record c {
                queue = v';
                stats = record (c.stats) { winning_tickets = c.stats.winning_tickets + 1 };
              })
              s' m,
        )
      ]

  -- A ticket of a newer epoch: everything queued is neglected first.
  unfoldable pub drain_and_push :
      ℕ → Ticket → ChannelTicketQueue → HoprTicketManager S → Outcome S (List Ticket)
  drain_and_push fuel t c m =
      let (r, v', s') = drain api qs.queue fuel c.queue m.store in
      elim r [
        | err e ↦ (err (store_failed e), put t.channel_id (record c { queue = v' }) s' m)
        | ok neg ↦
            push_winning neg t
              (record c {
                queue = v';
                stats = record (c.stats) {
                  neglected_value = balance_add api c.stats.neglected_value (sum_amounts api 0 neg);
                };
              })
              s' m
      ]

  -- A ticket of an older epoch: it is counted as winning, and neglected itself.
  unfoldable pub reject_older :
      Ticket → ChannelTicketQueue → HoprTicketManager S → Outcome S (List Ticket)
  reject_older t c m = (
    ok (t ∷ []),
    put t.channel_id
        (record c {
          stats = record (c.stats) {
            winning_tickets = c.stats.winning_tickets + 1;
            neglected_value = balance_add api c.stats.neglected_value t.amount;
          };
        })
        m.store m,
  )

  unfoldable pub insert_occupied :
      ℕ → Ticket → ChannelTicketQueue → HoprTicketManager S → Outcome S (List Ticket)
  insert_occupied fuel t c m = elim (qs.peek c.queue.queue m.store) [
    | err e ↦ (err (store_failed e), m)
    | ok none ↦ push_winning [] t c m.store m
    | ok (some last) ↦
        if ltb last.channel_epoch t.channel_epoch
        then drain_and_push fuel t c m
        else if ltb t.channel_epoch last.channel_epoch
        then reject_older t c m
        else push_winning [] t c m.store m
  ]

  -- The adapter of a queue just opened, if it may be used.
  unfoldable pub open_empty : ℕ → S → Result TicketManagerError ValueCachedQueue
  open_empty h s = elim (new api qs.queue h s) [
    | err e ↦ err (store_failed e)
    | ok v ↦ elim (is_empty qs.queue v.queue s) [
      | err e ↦ err (store_failed e)
      | ok true ↦ ok v
      | ok false ↦ err (other queue_not_empty)
    ]
  ]

  unfoldable pub insert_vacant : Ticket → HoprTicketManager S → Outcome S (List Ticket)
  insert_vacant t m =
      let (opened, s) = qs.open_or_create_queue t.channel_id m.store in
      elim opened [
        | err e ↦ (err (store_failed e), record m { store = s })
        | ok h ↦ elim (open_empty h s) [
          | err e ↦ (err e, record m { store = s })
          | ok v ↦
              let (r, v', s') = push api qs.queue v t s in
              elim r [
                | err e ↦ (err (store_failed e), record m { store = s' })
                | ok _ ↦ (ok [], put t.channel_id (from_queue qs.queue v' s') s' m)
              ]
        ]
      ]

  unfoldable pub insert_incoming_ticket : ℕ → Ticket → HoprTicketManager S → Outcome S (List Ticket)
  insert_incoming_ticket fuel t m = elim (get t.channel_id m.channel_tickets) [
    | some c ↦ insert_occupied fuel t c m
    | none ↦ insert_vacant t m
  ]
