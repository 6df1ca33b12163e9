-- ===== src/TicketManager/Manager/Sync.antt =====
-- ticket-manager/src/manager.rs: `sync_from_incoming_channels`. `now` is the current time; the fuel
-- of the pruning loop bounds the number of tickets in a queue.
use hopr_impls.Base.{
  ℕ, zero, suc, Bool, not, ◌&&◌, ◌||◌, Option, none, some, List, [], ◌∷◌, ◌++◌, ok, err, Exec,
  and_then, proceed, if◌then◌else◌, ltb, ◌==◌, any,
}
use hopr_impls.Base.Keyed.{nat_key}
use hopr_impls.Base.Keyed
use hopr_impls.HoprApi.{HoprApi, Ticket, ChannelEntry}
use hopr_impls.TicketManager.Queue.Traits.{TicketQueue, TicketQueueStore}
use hopr_impls.TicketManager.Queue.Cached.{new}
use hopr_impls.TicketManager.Manager.State.{
  HoprTicketManager, Outcome, store_failed, from_queue, put,
}
use hopr_impls.TicketManager.Manager.Neglect.{extend}

module _ (api : HoprApi) (now : ℕ) where
  -- A channel given that is open, or whose closure period has not passed.
  abbrev pub is_live : ChannelEntry → Bool
  is_live c = not (api.closure_time_passed c now)

  abbrev pub is_live_id : ℕ → ChannelEntry → Bool
  is_live_id id c = is_live c && c.id == id

-- A ticket of an older epoch or with an index below the channel's.
abbrev pub is_unredeemable : ChannelEntry → Ticket → Bool
is_unredeemable c t = ltb t.channel_epoch c.channel_epoch || ltb t.index c.ticket_index

abbrev pub pruned_one :
    {S : Type 0} → Exec S ℕ (List Ticket) → Option Ticket → Exec S ℕ (List Ticket)
pruned_one rest popped s = proceed (rest s) (λ ts s'. (ok (extend ts popped), s'))

module _ {S : Type 0} (q : TicketQueue S) where
  -- The loop that takes unredeemable tickets off the front of a queue.
  unfoldable pub prune : ℕ → ChannelEntry → ℕ → Exec S ℕ (List Ticket)
  prune zero c h s = (ok [], s)
  prune (suc fuel) c h s =
      let rest = prune fuel c h in
      elim (q.peek h s) [
        | err e ↦ (err e, s)
        | ok none ↦ (ok [], s)
        | ok (some t) ↦
            if is_unredeemable c t then proceed (q.pop h s) (pruned_one rest) else (ok [], s)
      ]

module _ (api : HoprApi) (now : ℕ) {S : Type 0} (qs : TicketQueueStore S) where
  -- A method, and what was neglected before it.
  abbrev pub after : List Ticket → Outcome S (List Ticket) → Outcome S (List Ticket)
  after ts (r, m) = (and_then r (λ us. ok (ts ++ us)), m)

  -- The first loop: stored queues of channels that are not live are deleted.
  unfoldable pub purge : List ChannelEntry → List ℕ → HoprTicketManager S → Outcome S (List Ticket)
  purge cs [] m = (ok [], m)
  purge cs (id ∷ ids) m =
      let rest = purge cs ids in
      if any (is_live_id api now id) cs
      then rest m
      else (let (r, s) = qs.delete_queue id m.store in
          elim r [
            | err e ↦ (err (store_failed e), record m { store = s })
            | ok ts ↦
                after ts
                  (rest (record { channel_tickets = Keyed.remove id m.channel_tickets; store = s }))
          ])

  -- One round of the second loop: open, prune, wrap, and put in the map. The number of tickets is
  -- read for a debug event, which is taken to be enabled, and an error of the reading ends the call.
  unfoldable pub load_channel : ℕ → ChannelEntry → HoprTicketManager S → Outcome S (List Ticket)
  load_channel fuel c m =
      let (opened, s) = qs.open_or_create_queue c.id m.store in
      elim opened [
        | err e ↦ (err (store_failed e), record m { store = s })
        | ok h ↦
            let (pruned, s') = prune qs.queue fuel c h s in
            elim pruned [
              | err e ↦ (err (store_failed e), record m { store = s' })
              | ok ts ↦ elim (new api qs.queue h s') [
                | err e ↦ (err (store_failed e), record m { store = s' })
                | ok v ↦ elim (qs.queue.len h s') [
                  | err e ↦ (err (store_failed e), record m { store = s' })
                  | ok n ↦ (ok ts, put c.id (from_queue qs.queue v s') s' m)
                ]
              ]
            ]
      ]

  unfoldable pub load_channels :
      ℕ → List ChannelEntry → HoprTicketManager S → Outcome S (List Ticket)
  load_channels fuel [] m = (ok [], m)
  load_channels fuel (c ∷ cs) m =
      let rest = load_channels fuel cs in
      if is_live api now c
      then (let (r, m') = load_channel fuel c m in
          elim r [ err e ↦ (err e, m') | ok ts ↦ after ts (rest m') ])
      else rest m

  unfoldable pub sync_from_incoming_channels :
      ℕ → List ChannelEntry → HoprTicketManager S → Outcome S (List Ticket)
  sync_from_incoming_channels fuel cs m = elim (qs.iter_queues m.store) [
    | err e ↦ (err (store_failed e), m)
    | ok ids ↦
        let (r, m') = purge cs ids m in
        elim r [ err e ↦ (err e, m') | ok ts ↦ after ts (load_channels fuel cs m') ]
  ]
