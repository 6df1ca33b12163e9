-- ===== src/TicketManager/Cache/Defs.antt =====
-- ticket-manager/src/utils.rs, `OutgoingIndexCache`. Each method is one indivisible call.
use hopr_impls.Base.{
  ℕ, suc, ◌+◌, Bool, true, false, Option, none, some, List, [], ◌∷◌, Result, ok, err, if◌then◌else◌,
  ltb, is_ok,
}
use hopr_impls.Base.Keyed.{Key, pair_key, get, insert}
use hopr_impls.Base.Keyed
use hopr_impls.HoprApi.{HoprApi}
use hopr_impls.TicketManager.Errors.{Cause, failed_to_save}
use hopr_impls.TicketManager.Index.Defs.{
  OutgoingIndexEntry, new, increment_at_least, set, current, mark_clean,
}
use hopr_impls.TicketManager.IndexStore.{OutgoingIndexStore}

pub record OutgoingIndexCache : Type 0 where
  pub cache : List ((ℕ × ℕ) × OutgoingIndexEntry)
  pub removed : List ((ℕ × ℕ) × Unit {0})

abbrev pub empty : OutgoingIndexCache
empty = record { cache = []; removed = [] }

abbrev pub entry_or : OutgoingIndexEntry → Option OutgoingIndexEntry → OutgoingIndexEntry
entry_or d none = d
entry_or d (some e) = e

module _ (api : HoprApi) where
  unfoldable pub next_at_least : ℕ × ℕ → ℕ → OutgoingIndexCache → OutgoingIndexCache × ℕ
  next_at_least k least c =
      let (e, v) = increment_at_least api least (entry_or (new 0) (get k c.cache)) in
      (record c { cache = insert k e c.cache }, v)

  unfoldable pub upsert : ℕ × ℕ → ℕ → OutgoingIndexCache → OutgoingIndexCache × ℕ
  upsert k i c =
      let (e, v) = set api i (entry_or (new i) (get k c.cache)) in
      (record c { cache = insert k e c.cache }, v)

unfoldable pub remove : ℕ × ℕ → OutgoingIndexCache → OutgoingIndexCache × Bool
remove k c = elim (get k c.cache) [
  | none ↦ (c, false)
  | some e ↦ (record { cache = Keyed.remove k c.cache; removed = insert k tt c.removed }, true)
]

-- What a round of `save` leaves: the entry, the number of failures, the store.
pub record Written (S : Type 0) : Type 0 where
  pub entry : OutgoingIndexEntry
  pub failed : ℕ
  pub store : S

-- What a loop of `save` leaves: the collection, the failures, the store.
pub record Looped (A S : Type 0) : Type 0 where
  pub left : List A
  pub failed : ℕ
  pub store : S

module _ (api : HoprApi) {S : Type 0} (o : OutgoingIndexStore S) where
  -- The entry is shared with the cache, so marking it clean is seen there.
  unfoldable pub save_entry : ℕ × ℕ → OutgoingIndexEntry → S → Written S
  save_entry k e s =
      let (r, s') = o.save_outgoing_index k (current api e) s in
      if e.is_dirty
      then (if is_ok r
          then record { entry = mark_clean e; failed = 0; store = s' }
          else record { entry = e; failed = 1; store = s' })
      else record { entry = e; failed = 0; store = s }

  unfoldable pub save_entries :
      List ((ℕ × ℕ) × OutgoingIndexEntry) → S → Looped ((ℕ × ℕ) × OutgoingIndexEntry) S
  save_entries [] s = record { left = []; failed = 0; store = s }
  save_entries ((k, e) ∷ m) s =
      let w = save_entry k e s in
      let rest = save_entries m w.store in
      record {
        left = (k, w.entry) ∷ rest.left;
        failed = w.failed + rest.failed;
        store = rest.store;
      }

  unfoldable pub delete_removed : List ((ℕ × ℕ) × Unit {0}) → S → Looped ((ℕ × ℕ) × Unit {0}) S
  delete_removed [] s = record { left = []; failed = 0; store = s }
  delete_removed ((k, u) ∷ m) s =
      let (r, s') = o.delete_outgoing_index k s in
      let rest = delete_removed m s' in
      if is_ok r
      then rest
      else record { left = (k, u) ∷ rest.left; failed = suc rest.failed; store = rest.store }

  unfoldable pub save : OutgoingIndexCache → S → Result Cause (Unit {0}) × OutgoingIndexCache × S
  save c s =
      let first = save_entries c.cache s in
      let second = delete_removed c.removed first.store in
      let failed = first.failed + second.failed in
      (
        (if ltb 0 failed then err (failed_to_save failed) else ok tt),
        record { cache = first.left; removed = second.left },
        second.store,
      )
