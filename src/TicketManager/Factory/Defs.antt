-- ===== src/TicketManager/Factory/Defs.antt =====
-- ticket-manager/src/factory.rs: `HoprTicketFactory` over a store `S`. The weak reference to the
-- ticket manager enters `remaining_incoming_channel_stake` as what `upgrade` returns.
use hopr_impls.Base.{
  ℕ, ◌-◌, max, Bool, ◌&&◌, Option, none, some, List, [], ◌∷◌, Result, ok, err, Exec, proceed,
  map_err, if◌then◌else◌, ltb, ◌==◌, any,
}
use hopr_impls.Base.Keyed.{same_pair}
use hopr_impls.HoprApi.{HoprApi, ChannelEntry, is_open, balance_mul, balance_sub}
use hopr_impls.TicketManager.Errors.{
  TicketManagerError, store_error, other, out_of_funds, backend, path_position_one,
  channel_not_open, invalid_winning_probability,
}
use hopr_impls.TicketManager.IndexStore.{OutgoingIndexStore}
use hopr_impls.TicketManager.Cache.Defs.{
  OutgoingIndexCache, empty, next_at_least, upsert, remove, save,
}

pub record HoprTicketFactory (S : Type 0) : Type 0 where
  pub out_idx_tracker : OutgoingIndexCache
  pub store : S

unfoldable pub new : {S : Type 0} → S → HoprTicketFactory S
new s = record { out_idx_tracker = empty; store = s }

abbrev pub key : ChannelEntry → ℕ × ℕ
key c = (c.id, c.channel_epoch)

-- `TicketBuilder`, with what `new_multihop_ticket` sets.
pub record TicketBuilder : Type 0 where
  pub counterparty : ℕ
  pub balance : ℕ
  pub index : ℕ
  pub win_prob : ℕ
  pub channel_epoch : ℕ

module _ (api : HoprApi) where
  unfoldable pub next_outgoing_ticket_index :
      ChannelEntry → OutgoingIndexCache → OutgoingIndexCache × ℕ
  next_outgoing_ticket_index c t =
      let (t', v) = next_at_least api (key c) c.ticket_index t in
      if v == 0 && ltb 1 c.channel_epoch
      then ((remove (c.id, c.channel_epoch - 1) t').0, v)
      else (t', v)

  -- The state is the tracker of the outgoing indices.
  unfoldable pub new_multihop_ticket :
      ChannelEntry
      → (path_position winning_probability price_per_hop : ℕ)
      → Exec OutgoingIndexCache TicketManagerError TicketBuilder
  new_multihop_ticket c pos prob price t =
      if pos == 1
      then (err (other path_position_one), t)
      else if is_open c.status
      then (elim (api.div_f64 (balance_mul api price (pos - 1)) prob) [
        | none ↦ (err (other invalid_winning_probability), t)
        | some amount ↦
            if ltb c.balance amount
            then (err (out_of_funds c.id amount), t)
            else let (t', v) = next_outgoing_ticket_index c t in
              (
                ok (record {
                  counterparty = c.destination;
                  balance = amount;
                  index = v;
                  win_prob = prob;
                  channel_epoch = c.channel_epoch;
                }),
                t',
              )
      ])
      else (err (other channel_not_open), t)

abbrev pub or_zero : Option ℕ → ℕ
or_zero none = 0
or_zero (some n) = n

-- `queue_map` is the upgraded reference: `unrealized_value` of the manager, if there is one.
unfoldable pub remaining_incoming_channel_stake :
    Option (ℕ → Option ℕ → Result TicketManagerError (Option ℕ))
    → ChannelEntry
    → Result TicketManagerError ℕ
remaining_incoming_channel_stake none c = ok c.balance
remaining_incoming_channel_stake (some unrealized_value) c = elim (unrealized_value c.id none) [
  | ok v ↦ ok (balance_sub c.balance (or_zero v))
  | err e ↦ err e
]

abbrev store_failed : ℕ → TicketManagerError
store_failed n = store_error (backend n)

-- An open channel with this id and epoch.
abbrev pub is_current : ℕ × ℕ → ChannelEntry → Bool
is_current k c = is_open c.status && same_pair (key c) k

module _ {S : Type 0} (o : OutgoingIndexStore S) where
  -- The first loop of `sync_from_outgoing_channels`.
  unfoldable pub purge : List ChannelEntry → List (ℕ × ℕ) → Exec S ℕ (Unit {0})
  purge cs [] s = (ok tt, s)
  purge cs (k ∷ ks) s =
      let rest = purge cs ks in
      if any (is_current k) cs then rest s else proceed (o.delete_outgoing_index k s) (λ _. rest)

module _ (api : HoprApi) {S : Type 0} (o : OutgoingIndexStore S) where
  -- The second loop.
  unfoldable pub load_channels : List ChannelEntry → S → Exec OutgoingIndexCache ℕ (Unit {0})
  load_channels [] s t = (ok tt, t)
  load_channels (c ∷ cs) s t =
      let rest = load_channels cs s in
      if is_open c.status
      then (elim (o.load_outgoing_index (key c) s) [
        | ok found ↦ rest (upsert api (key c) (max (or_zero found) c.ticket_index) t).0
        | err e ↦ (err e, t)
      ])
      else rest t

  unfoldable pub sync_from_outgoing_channels :
      List ChannelEntry → Exec (HoprTicketFactory S) TicketManagerError (Unit {0})
  sync_from_outgoing_channels cs f = elim (o.iter_outgoing_indices f.store) [
    | err e ↦ (err (store_failed e), f)
    | ok ks ↦
        let (purged, s) = purge o cs ks f.store in
        let (loaded, t) = load_channels cs s f.out_idx_tracker in
        elim purged [
          | err e ↦ (err (store_failed e), record f { store = s })
          | ok _ ↦ (map_err store_failed loaded, record { out_idx_tracker = t; store = s })
        ]
  ]

  unfoldable pub save_outgoing_indices : Exec (HoprTicketFactory S) TicketManagerError (Unit {0})
  save_outgoing_indices f =
      let (r, t, s) = save api o f.out_idx_tracker f.store in
      (map_err store_error r, record { out_idx_tracker = t; store = s })
