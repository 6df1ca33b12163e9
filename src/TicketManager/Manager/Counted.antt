-- ===== src/TicketManager/Manager/Counted.antt =====
-- What `ticket_stats` and `unrealized_value` report of a channel.
use hopr_impls.Base.{
  ℕ, ◌≤◌, ◌≡◌, refl, sym, Option, none, some, ok, arith, Result-cases, Bool-cases, inl, inr, List,
  [], ◌∷◌, ◌==◌, ◌∙◌, ◌-◌,
}
use hopr_impls.Base.Keyed.{nat_key, get, Distinct}
use hopr_impls.HoprApi.{HoprApi, Ticket, ChannelEntry}
use hopr_impls.TicketManager.Queue.Traits.{TicketQueue, IsTicketQueue, min_index_of}
use hopr_impls.TicketManager.Queue.Sums.{total, amount, matching}
use hopr_impls.TicketManager.Queue.Cached.{ValueCachedQueue}
use hopr_impls.TicketManager.Queue.Value.{AreOf, IsCached, nil_of_head}
use hopr_impls.TicketManager.Queue.Emptied.{AreOf-head}
use hopr_impls.TicketManager.Queue.Reads.{cached_unrealized_value_lem, total_value_lem}
use hopr_impls.TicketManager.Manager.State.{ChannelTicketQueue, HoprTicketManager}
use hopr_impls.TicketManager.Factory.Defs.{remaining_incoming_channel_stake}
use hopr_impls.TicketManager.Manager.Stats.{
  ChannelStats, no_stats, first_epoch_value, add_stats, fold_stats, ticket_stats, unrealized_value,
}

-- The amount of a ticket from a least index on.
abbrev pub from_index : ℕ → Ticket → ℕ
from_index least t = matching t.channel_epoch least t

module _ (api : HoprApi) {S : Type 0} (q : TicketQueue S) (lawful : IsTicketQueue api q) where
  open lawful use {contents, peek_lem}

  from_index-AreOf :
      (e least : ℕ) (ts : List Ticket)
      → AreOf e ts
      → total (matching e least) ts ≡ total (from_index least) ts
  from_index-AreOf e least [] a = refl
  from_index-AreOf e least (t ∷ ts) a = ground (arith, from_index-AreOf e least ts a.1)

  first_epoch_value_lem :
      (min_index : Option ℕ) (v : ValueCachedQueue) (s : S) (n : ℕ)
      → IsCached api q lawful v s
      → total amount (contents v.queue s) ≤ api.max_balance
      → first_epoch_value api q min_index v s ≡ ok n
      → n ≡ total (from_index (min_index_of min_index)) (contents v.queue s)
  unfolding first_epoch_value
  first_epoch_value_lem min_index v s n k fits h = elim (Result-cases (q.peek v.queue s)) [
    | inr (x, p) ↦ ground (arith, p)
    | inl (none, p) ↦
        ground (arith, p, nil_of_head (contents v.queue s) (peek_lem v.queue s none p))
    | inl (some t, p) ↦
        let first = peek_lem v.queue s (some t) p in
        total_value_lem api q lawful v t.channel_epoch min_index s n k fits (ground (arith, p))
        ∙ from_index-AreOf t.channel_epoch (min_index_of min_index) (contents v.queue s)
            (AreOf-head v.current_epoch (contents v.queue s) t k.uniform (sym first))
  ]

  from_zero : (ts : List Ticket) → total (from_index 0) ts ≡ total amount ts
  from_zero [] = refl
  from_zero (t ∷ ts) = ground (arith, from_zero ts)

  -- For a channel that has an entry with an exact adapter the unrealized value, if it can be read,
  -- is the sum of the amounts of the queued tickets from the least index on.
  pub unrealized_value_lem :
      (m : HoprTicketManager S) (id : ℕ) (min_index value : Option ℕ) (c : ChannelTicketQueue)
      → get id m.channel_tickets ≡ some c
      → IsCached api q lawful c.queue m.store
      → total amount (contents c.queue.queue m.store) ≤ api.max_balance
      → unrealized_value api q m id min_index ≡ ok value
      → value ≡ some (total (from_index (min_index_of min_index)) (contents c.queue.queue m.store))
  unfolding unrealized_value
  unrealized_value_lem m id none value c e k fits h = ground (
    arith,
    e,
    cached_unrealized_value_lem api q lawful c.queue m.store k,
    from_zero (contents c.queue.queue m.store),
  )
  unrealized_value_lem m id (some least) value c e k fits h =
      elim (Result-cases (first_epoch_value api q (some least) c.queue m.store)) [
        | inr (x, p) ↦ ground (arith, e, p)
        | inl (n, p) ↦
            ground (arith, e, p, first_epoch_value_lem (some least) c.queue m.store n k fits p)
      ]

  -- The stake that remains of an incoming channel is its balance less the amounts of all tickets
  -- queued for it, and its balance if no ticket of it is managed.
  pub remaining_incoming_channel_stake_lem :
      (m : HoprTicketManager S) (channel : ChannelEntry) (c : ChannelTicketQueue)
      → get channel.id m.channel_tickets ≡ some c
      → IsCached api q lawful c.queue m.store
      → (remaining_incoming_channel_stake (some (unrealized_value api q m)) channel
          ≡ ok (channel.balance - total amount (contents c.queue.queue m.store)))
        × (remaining_incoming_channel_stake none channel ≡ ok channel.balance)
  unfolding remaining_incoming_channel_stake unrealized_value
  remaining_incoming_channel_stake_lem m channel c e k =
      ground (arith, e, cached_unrealized_value_lem api q lawful c.queue m.store k)

  fold_none :
      (id : ℕ) (m : List (ℕ × ChannelTicketQueue)) (s : S) (stats : ChannelStats)
      → get id m ≡ none
      → fold_stats api q (some id) m s stats ≡ ok stats
  unfolding fold_stats get
  fold_none id [] s stats h = refl
  fold_none id ((j, d) ∷ m) s stats h = ground (arith, fold_none id m s stats)

  fold_some :
      (id : ℕ) (m : List (ℕ × ChannelTicketQueue)) (s : S) (c : ChannelTicketQueue)
      (stats got : ChannelStats)
      → Distinct m
      → get id m ≡ some c
      → fold_stats api q (some id) m s stats ≡ ok got
      → (n : ℕ) × (first_epoch_value api q none c.queue s ≡ ok n)
        × (got ≡ add_stats api q c n stats)
  unfolding fold_stats get
  fold_some id [] s c stats got d g h = cc
  fold_some id ((j, x) ∷ m) s c stats got d g h = elim (Bool-cases (j == id)) [
    | inr other ↦ fold_some id m s c stats got d.1 (ground (arith, other)) (ground (arith, other))
    | inl it ↦ elim (Result-cases (first_epoch_value api q none x.queue s)) [
      | inr (e, p) ↦ ground (arith, it, p)
      | inl (n, p) ↦
          let same : x ≡ c = ground (arith, it) in
          (
            n,
            ground (arith, p, same),
            ground (arith, it, p, same, fold_none id m s (add_stats api q x n stats), d.0),
          )
    ]
  ]

  -- The statistics of one channel, if they can be read, are those of its entry, with the sum of the
  -- amounts of its queued tickets as unredeemed value; the amounts fit in a balance.
  pub ticket_stats_lem :
      (m : HoprTicketManager S) (id : ℕ) (c : ChannelTicketQueue) (got : ChannelStats)
      → Distinct m.channel_tickets
      → get id m.channel_tickets ≡ some c
      → IsCached api q lawful c.queue m.store
      → total amount (contents c.queue.queue m.store) ≤ api.max_balance
      → c.stats.neglected_value ≤ api.max_balance
      → c.stats.rejected_value ≤ api.max_balance
      → ticket_stats api q (some id) m ≡ ok got
      → got ≡ record {
        winning_tickets = c.stats.winning_tickets;
        unredeemed_value = total amount (contents c.queue.queue m.store);
        rejected_value = c.stats.rejected_value;
        neglected_value = c.stats.neglected_value;
      }
  unfolding ticket_stats
  ticket_stats_lem m id c got d g k fits fn fr h =
      elim (Result-cases (fold_stats api q (some id) m.channel_tickets m.store no_stats)) [
        | inr (x, f) ↦ ground (arith, f)
        | inl (stats, f) ↦
            let (n, value, sum) = fold_some id m.channel_tickets m.store c no_stats stats d g f in
            ground (
              arith,
              f,
              sum,
              first_epoch_value_lem none c.queue m.store n k fits value,
              from_zero (contents c.queue.queue m.store),
            )
      ]
