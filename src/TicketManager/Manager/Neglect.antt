-- ===== src/TicketManager/Manager/Neglect.antt =====
-- ticket-manager/src/manager.rs: `neglect_tickets`. The fuel of the loop bounds the number of
-- tickets in the queue.
use hopr_impls.Base.{
  ℕ, zero, suc, Option, none, some, List, [], ◌∷◌, Result, ok, err, and_then, if◌then◌else◌, leb,
}
use hopr_impls.Base.Keyed.{nat_key, get}
use hopr_impls.HoprApi.{HoprApi, Ticket, balance_add}
use hopr_impls.TicketManager.Errors.{TicketManagerError, channel_queue_not_found}
use hopr_impls.TicketManager.Queue.Traits.{TicketQueue}
use hopr_impls.TicketManager.Queue.Cached.{pop}
use hopr_impls.TicketManager.Manager.State.{
  ChannelTicketQueue, HoprTicketManager, Outcome, store_failed, put,
}

abbrev pub amount_or_zero : Option Ticket → ℕ
amount_or_zero none = 0
amount_or_zero (some t) = t.amount

abbrev pub extend : List Ticket → Option Ticket → List Ticket
extend ts none = ts
extend ts (some t) = t ∷ ts

abbrev pub max_index : HoprApi → Option ℕ → ℕ
max_index api none = api.max_ticket_index
max_index api (some n) = n

-- What a loop over one channel's queue leaves.
abbrev pub Looped : Type 0 → Type 0
Looped S = Result ℕ (List Ticket) × ChannelTicketQueue × S

module _ (api : HoprApi) {S : Type 0} (q : TicketQueue S) where
  -- The body of the loop: pop, and account for what was popped.
  unfoldable pub neglect_one :
      ChannelTicketQueue → S → Result ℕ (Option Ticket) × ChannelTicketQueue × S
  neglect_one c s =
      let (r, v', s') = pop api q c.queue s in
      elim r [
        | err e ↦ (err e, record c { queue = v' }, s')
        | ok popped ↦ (
          ok popped,
          record c {
            queue = v';
            stats = record (c.stats) {
              neglected_value = balance_add api c.stats.neglected_value (amount_or_zero popped);
            };
          },
          s',
        )
      ]

  abbrev pub neglected_one :
      (ChannelTicketQueue → S → Looped S)
      → Result ℕ (Option Ticket)
      → ChannelTicketQueue
      → S
      → Looped S
  neglected_one rest (err e) c s = (err e, c, s)
  neglected_one rest (ok popped) c s =
      let (r, c', s') = rest c s in (and_then r (λ ts. ok (extend ts popped)), c', s')

  unfoldable pub neglect_loop : ℕ → ℕ → ChannelTicketQueue → S → Looped S
  neglect_loop zero top c s = (ok [], c, s)
  neglect_loop (suc fuel) top c s =
      let rest = neglect_loop fuel top in
      elim (q.peek c.queue.queue s) [
        | err e ↦ (err e, c, s)
        | ok none ↦ (ok [], c, s)
        | ok (some t) ↦
            if leb t.index top
            then (let (r, c', s') = neglect_one c s in neglected_one rest r c' s')
            else (ok [], c, s)
      ]

  abbrev pub finished : Result ℕ (List Ticket) → Result TicketManagerError (List Ticket)
  finished (ok ts) = ok ts
  finished (err e) = err (store_failed e)

  unfoldable pub neglect_tickets : ℕ → ℕ → Option ℕ → HoprTicketManager S → Outcome S (List Ticket)
  neglect_tickets fuel id up_to_index m = elim (get id m.channel_tickets) [
    | none ↦ (err channel_queue_not_found, m)
    | some c ↦
        let (r, c', s') = neglect_loop fuel (max_index api up_to_index) c m.store in
        (finished r, put id c' s' m)
  ]
