-- ===== src/TicketManager/Queue/Cached.antt =====
-- ticket-manager/src/backend/mod.rs: `ValueCachedQueue`, the adapter that keeps the total value of
-- each epoch in memory. The queue inside is a handle of the store `S`; a method returns the new
-- adapter and the new store beside its result.
use hopr_impls.Base.{
  ℕ, zero, suc, max, Option, none, some, List, [], ◌∷◌, Result, ok, err, and_then,
}
use hopr_impls.Base.Keyed.{nat_key, get, insert}
use hopr_impls.HoprApi.{HoprApi, Ticket, balance_add, balance_sub}
use hopr_impls.TicketManager.Queue.Traits.{TicketQueue, default_total_value, oks}

pub record ValueCachedQueue : Type 0 where
  pub queue : ℕ
  pub value_cache : List (ℕ × ℕ)
  pub current_epoch : Option ℕ

abbrev pub or_default : Option ℕ → ℕ
or_default none = 0
or_default (some n) = n

-- The cached value of an epoch, zero if there is none.
abbrev pub cached : ℕ → List (ℕ × ℕ) → ℕ
cached epoch m = or_default (get epoch m)

module _ (api : HoprApi) where
  -- `value_cache.entry(epoch).or_default().add_assign(amount)`
  unfoldable pub add_value : Ticket → List (ℕ × ℕ) → List (ℕ × ℕ)
  add_value t m = insert t.channel_epoch (balance_add api (cached t.channel_epoch m) t.amount) m

  -- The loop of `new` over the tickets that could be read.
  unfoldable pub load : List Ticket → ValueCachedQueue → ValueCachedQueue
  load [] v = v
  load (t ∷ ts) v =
      load ts
        (record v { value_cache = add_value t v.value_cache; current_epoch = some t.channel_epoch })

unfoldable pub subtract_value : Ticket → List (ℕ × ℕ) → List (ℕ × ℕ)
subtract_value t m = insert t.channel_epoch (balance_sub (cached t.channel_epoch m) t.amount) m

abbrev pub epoch_of : Option Ticket → Option ℕ
epoch_of none = none
epoch_of (some t) = some t.channel_epoch

-- `cached_unrealized_value`
abbrev pub value_at : Option ℕ → List (ℕ × ℕ) → ℕ
value_at none m = 0
value_at (some epoch) m = cached epoch m

unfoldable pub cached_unrealized_value : ValueCachedQueue → ℕ
cached_unrealized_value v = value_at v.current_epoch v.value_cache

module _ (api : HoprApi) {S : Type 0} (q : TicketQueue S) where
  unfoldable pub new : ℕ → S → Result ℕ ValueCachedQueue
  new h s =
      and_then (q.iter_unordered h s) (λ rs.
        ok (load api (oks rs) (record { queue = h; value_cache = []; current_epoch = none })))

  unfoldable pub push : ValueCachedQueue → Ticket → S → Result ℕ (Unit {0}) × ValueCachedQueue × S
  push v t s =
      let (r, s') = q.push v.queue t s in
      (
        r,
        record v {
          value_cache = add_value api t v.value_cache;
          current_epoch = some (max t.channel_epoch (or_default v.current_epoch));
        },
        s',
      )

  -- The epoch is read again from what remains in the queue.
  abbrev pub after_pop :
      Result ℕ (Option Ticket)
      → ValueCachedQueue
      → S
      → Result ℕ (Option Ticket) × ValueCachedQueue × S
  after_pop (err e) v s = (err e, v, s)
  after_pop (ok none) v s = (ok none, v, s)
  after_pop (ok (some t)) v s =
      let v' : ValueCachedQueue = record v { value_cache = subtract_value t v.value_cache } in
      elim (q.peek v.queue s) [
        | ok next ↦ (ok (some t), record v' { current_epoch = epoch_of next }, s)
        | err e ↦ (err e, v', s)
      ]

  unfoldable pub pop : ValueCachedQueue → S → Result ℕ (Option Ticket) × ValueCachedQueue × S
  pop v s = let (r, s') = q.pop v.queue s in after_pop r v s'

  unfoldable pub total_value : ValueCachedQueue → ℕ → Option ℕ → S → Result ℕ ℕ
  total_value v epoch (some least) s = default_total_value q api v.queue epoch (some least) s
  total_value v epoch none s = elim (get epoch v.value_cache) [
    | some value ↦ ok value
    | none ↦ default_total_value q api v.queue epoch none s
  ]

  -- `drain`, the default method of the trait over the `pop` above; `fuel` bounds its rounds.
  abbrev pub drained :
      (ValueCachedQueue → S → Result ℕ (List Ticket) × ValueCachedQueue × S)
      → Result ℕ (Option Ticket)
      → ValueCachedQueue
      → S
      → Result ℕ (List Ticket) × ValueCachedQueue × S
  drained rest (err e) v s = (err e, v, s)
  drained rest (ok none) v s = (ok [], v, s)
  drained rest (ok (some t)) v s =
      let (r, v', s') = rest v s in (and_then r (λ ts. ok (t ∷ ts)), v', s')

  unfoldable pub drain : ℕ → ValueCachedQueue → S → Result ℕ (List Ticket) × ValueCachedQueue × S
  drain zero v s = (ok [], v, s)
  drain (suc fuel) v s = let rest = drain fuel in let (r, v', s') = pop v s in drained rest r v' s'
