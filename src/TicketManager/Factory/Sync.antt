-- ===== src/TicketManager/Factory/Sync.antt =====
-- `sync_from_outgoing_channels`, and what a restart keeps.
use hopr_impls.Base.{
  ℕ, ◌+◌, ◌<◌, ◌≤◌, max, ◌≡◌, refl, true, not, ◌&&◌, List, [], ◌∷◌, arith, ◌⊎◌, inl, inr,
  if◌then◌else◌, Has, none, some, any, ok, Result-cases,
}
use hopr_impls.Base.Keyed.{pair_key, same_pair, same_pair_iff, Distinct, get}
use hopr_impls.HoprApi.{HoprApi, ChannelEntry, is_open}
use hopr_impls.TicketManager.IndexStore.{OutgoingIndexStore, IsIndexStore}
use hopr_impls.TicketManager.Index.Defs.{u64_mod, OutgoingIndexEntry, current}
use hopr_impls.TicketManager.Cache.Defs.{OutgoingIndexCache, upsert}
use hopr_impls.TicketManager.Cache.Laws.{counter, upsert_lem}
use hopr_impls.TicketManager.Cache.Save.{save_lem}
use hopr_impls.TicketManager.Factory.Defs.{
  HoprTicketFactory, key, new, or_zero, is_current, purge, load_channels,
  sync_from_outgoing_channels, save_outgoing_indices, next_outgoing_ticket_index,
}
use hopr_impls.TicketManager.Factory.Index.{next_outgoing_ticket_index_lem}

any-is_current :
    (cs : List ChannelEntry) (c : ChannelEntry)
    → Has c cs
    → is_open c.status ≡ true
    → any (is_current (key c)) cs ≡ true
unfolding any
any-is_current [] c m p = elim m [ ]
any-is_current (x ∷ cs) c m p = ground (arith, any-is_current cs c, same_pair_iff (key x) (key c))

module _ {S : Type 0} (o : OutgoingIndexStore S) (lawful : IsIndexStore o) where
  open lawful use {stored, stored-delete, load_lem, iter_lem}

  purge-stored :
      (cs : List ChannelEntry) (ks : List (ℕ × ℕ)) (s : S) (k : ℕ × ℕ)
      → (purge o cs ks s).0 ≡ ok tt
      → stored k (purge o cs ks s).1
        ≡ (if any (same_pair k) ks && not (any (is_current k) cs) then none else stored k s)
  unfolding purge any
  purge-stored cs [] s k h = refl
  purge-stored cs (j ∷ ks) s k h = ground (
    arith,
    purge-stored cs ks s k,
    purge-stored cs ks (o.delete_outgoing_index j s).1 k,
    stored-delete j k s,
    same_pair_iff j k,
    same_pair_iff k j,
  )

  load_channels_mono :
      (api : HoprApi) (cs : List ChannelEntry) (s : S) (t : OutgoingIndexCache) (k : ℕ × ℕ)
      → counter k t ≤ counter k (load_channels api o cs s t).1
  unfolding load_channels
  load_channels_mono api [] s t k = omega arith
  load_channels_mono api (c ∷ cs) s t k = elim (Result-cases (o.load_outgoing_index (key c) s)) [
    | inl (found, e) ↦
        let i : ℕ = max (or_zero found) c.ticket_index in
        ground (
          arith,
          e,
          load_channels_mono api cs s t k,
          load_channels_mono api cs s (upsert api (key c) i t).0 k,
          (upsert_lem api (key c) i t).1 k,
        )
    | inr (x, e) ↦ ground (arith, e, load_channels_mono api cs s t k)
  ]

  load_channels-ge :
      (api : HoprApi) (cs : List ChannelEntry) (s : S) (t : OutgoingIndexCache) (c : ChannelEntry)
      → (load_channels api o cs s t).0 ≡ ok tt
      → Has c cs
      → is_open c.status ≡ true
      → max (or_zero (stored (key c) s)) c.ticket_index
        ≤ counter (key c) (load_channels api o cs s t).1
  unfolding load_channels
  load_channels-ge api [] s t c h m p = elim m [ ]
  load_channels-ge api (x ∷ cs) s t c h m p =
      elim (Result-cases (o.load_outgoing_index (key x) s)) [
        | inl (found, e) ↦
            let i : ℕ = max (or_zero found) x.ticket_index in
            let t' : OutgoingIndexCache = (upsert api (key x) i t).0 in
            ground (
              arith,
              e,
              load_lem (key x) s found e,
              load_channels-ge api cs s t c,
              load_channels-ge api cs s t' c,
              load_channels_mono api cs s t' (key c),
              (upsert_lem api (key x) i t).1 (key c),
              same_pair_iff (key x) (key c),
            )
        | inr (f, e) ↦ ground (arith, e, load_channels-ge api cs s t c)
      ]

  -- After a synchronization without error each open channel given has a counter no less than its
  -- ticket index and than its stored index, and the counter of any key has not fallen.
  pub sync_from_outgoing_channels-counter :
      (api : HoprApi) (cs : List ChannelEntry) (f : HoprTicketFactory S) (c : ChannelEntry)
      (k : ℕ × ℕ)
      → (sync_from_outgoing_channels api o cs f).0 ≡ ok tt
      → Has c cs
      → is_open c.status ≡ true
      → let t = (sync_from_outgoing_channels api o cs f).1.out_idx_tracker in
        (max (or_zero (stored (key c) f.store)) c.ticket_index ≤ counter (key c) t)
        × (counter k f.out_idx_tracker ≤ counter k t)
  unfolding sync_from_outgoing_channels
  sync_from_outgoing_channels-counter api cs f c k h m p =
      elim (Result-cases (o.iter_outgoing_indices f.store)) [
        | inl (ks, e) ↦
            let s : S = (purge o cs ks f.store).1 in
            ground (
              arith,
              e,
              load_channels-ge api cs s f.out_idx_tracker c,
              load_channels_mono api cs s f.out_idx_tracker k,
              purge-stored cs ks f.store (key c),
              any-is_current cs c m p,
            )
        | inr (x, e) ↦ ground (arith, e)
      ]

  -- After a synchronization without error the store holds what it held for the keys of the open
  -- channels given, and nothing else.
  pub sync_from_outgoing_channels-stored :
      (api : HoprApi) (cs : List ChannelEntry) (f : HoprTicketFactory S) (k : ℕ × ℕ)
      → (sync_from_outgoing_channels api o cs f).0 ≡ ok tt
      → stored k (sync_from_outgoing_channels api o cs f).1.store
        ≡ (if any (is_current k) cs then stored k f.store else none)
  unfolding sync_from_outgoing_channels
  sync_from_outgoing_channels-stored api cs f k h =
      elim (Result-cases (o.iter_outgoing_indices f.store)) [
        | inl (ks, e) ↦ ground (arith, e, purge-stored cs ks f.store k, iter_lem f.store ks k e)
        | inr (x, e) ↦ ground (arith, e)
      ]

  -- Save the counters without error, start a new factory on the store, and synchronize it without
  -- error with channels among which one is open: the next index of that channel is no less than
  -- the counter was at the save, saturated. The entry of the channel must be dirty, or clean with
  -- its index in the store; its key must not wait for removal, and no key have two entries; and
  -- counters and ticket index must not wrap.
  pub restart_resumes :
      (api : HoprApi) (cs : List ChannelEntry) (f : HoprTicketFactory S) (c : ChannelEntry)
      (e : OutgoingIndexEntry)
      → Distinct f.out_idx_tracker.cache
      → get (key c) f.out_idx_tracker.cache ≡ some e
      → get (key c) f.out_idx_tracker.removed ≡ none
      → (e.is_dirty ≡ true) ⊎ (stored (key c) f.store ≡ some (current api e))
      → let saved = save_outgoing_indices api o f in
        let synced = sync_from_outgoing_channels api o cs (new saved.1.store) in
        saved.0 ≡ ok tt
        → synced.0 ≡ ok tt
        → Has c cs
        → is_open c.status ≡ true
        → counter (key c) synced.1.out_idx_tracker + 1 < u64_mod
        → c.ticket_index + 1 < u64_mod
        → current api e ≤ (next_outgoing_ticket_index api c synced.1.out_idx_tracker).1
  unfolding save_outgoing_indices new current
  restart_resumes api cs f c e d g r clean hs hy m p room ti =
      let f' : HoprTicketFactory S = (save_outgoing_indices api o f).1 in
      let fresh : HoprTicketFactory S = new f'.store in
      ground (
        arith,
        save_lem api o lawful f.out_idx_tracker f.store (key c) d,
        sync_from_outgoing_channels-counter api cs fresh c (key c) hy m p,
        (next_outgoing_ticket_index_lem api c
            (sync_from_outgoing_channels api o cs fresh).1.out_idx_tracker room ti).0,
      )
