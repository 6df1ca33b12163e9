-- ===== src/TicketManager/Cache/Save.antt =====
-- `OutgoingIndexCache::save` against a store that keeps its promises.
use hopr_impls.Base.{
  ℕ, ◌<◌, ◌≡◌, refl, true, false, arith, if◌then◌else◌, inl, inr, Option, none, some, List, [], ◌∷◌,
  ok, err, any, ◌≢◌, ◌⊎◌, dec_lt,
}
use hopr_impls.Base.Keyed.{pair_key, get, same_pair_iff, Distinct}
use hopr_impls.HoprApi.{HoprApi}
use hopr_impls.TicketManager.Errors.{Cause}
use hopr_impls.TicketManager.IndexStore.{OutgoingIndexStore, IsIndexStore}
use hopr_impls.TicketManager.Index.Defs.{OutgoingIndexEntry, current, mark_clean}
use hopr_impls.TicketManager.Cache.Defs.{
  OutgoingIndexCache, save_entry, save_entries, delete_removed, save,
}

-- What the store holds for a key after a save, from the entry of the key and what it held.
abbrev pub saved_index : HoprApi → Option OutgoingIndexEntry → Option ℕ → Option ℕ
saved_index api none old = old
saved_index api (some e) old = if e.is_dirty then some (current api e) else old

abbrev pub cleaned : Option OutgoingIndexEntry → Option OutgoingIndexEntry
cleaned none = none
cleaned (some e) = some (record e { is_dirty = false })

abbrev pub unless {ℓ} : {A : Type ℓ} → Option A → Option ℕ → Option ℕ
unless none old = old
unless (some _) old = none

module _ (api : HoprApi) {S : Type 0} (o : OutgoingIndexStore S) (lawful : IsIndexStore o) where
  open lawful use {stored, stored-save, stored-delete}

  save_entries_lem :
      (m : List ((ℕ × ℕ) × OutgoingIndexEntry)) (s : S) (k : ℕ × ℕ)
      → Distinct m
      → (save_entries api o m s).failed ≡ 0
      → (stored k (save_entries api o m s).store ≡ saved_index api (get k m) (stored k s))
        × (get k (save_entries api o m s).left ≡ cleaned (get k m))
  unfolding save_entries save_entry get mark_clean
  save_entries_lem [] s k d h = (refl, refl)
  save_entries_lem ((j, e) ∷ m) s k d h = ground (
    arith,
    save_entries_lem m (save_entry api o j e s).store k d.1,
    stored-save j k (current api e) s,
    same_pair_iff j k,
  )

  delete_removed_lem :
      (m : List ((ℕ × ℕ) × Unit {0})) (s : S) (k : ℕ × ℕ)
      → (delete_removed api o m s).failed ≡ 0
      → (stored k (delete_removed api o m s).store ≡ unless (get k m) (stored k s))
        × ((delete_removed api o m s).left ≡ [])
  unfolding delete_removed get
  delete_removed_lem [] s k h = (refl, refl)
  delete_removed_lem ((j, u) ∷ m) s k h = ground (
    arith,
    delete_removed_lem m (o.delete_outgoing_index j s).1 k,
    stored-delete j k s,
    same_pair_iff j k,
  )

  -- A save that reports no error has written the index of every dirty entry, has deleted every
  -- removed key from the store, has touched no other key, and leaves every entry clean, with
  -- nothing to remove. No key may have two entries.
  pub save_lem :
      (c : OutgoingIndexCache) (s : S) (k : ℕ × ℕ)
      → Distinct c.cache
      → (save api o c s).0 ≡ ok tt
      → (stored k (save api o c s).2
          ≡ unless (get k c.removed) (saved_index api (get k c.cache) (stored k s)))
        × (get k (save api o c s).1.cache ≡ cleaned (get k c.cache))
        × ((save api o c s).1.removed ≡ [])
  unfolding save
  save_lem c s k d h = ground (
    arith,
    save_entries_lem c.cache s k d,
    delete_removed_lem c.removed (save_entries api o c.cache s).store k,
  )

  -- What still waits to be saved: an entry that is dirty.
  save_entries-failed :
      (m : List ((ℕ × ℕ) × OutgoingIndexEntry)) (s : S)
      → 0 < (save_entries api o m s).failed
      → any (λ (x : (ℕ × ℕ) × OutgoingIndexEntry). x.1.is_dirty) (save_entries api o m s).left
        ≡ true
  unfolding save_entries save_entry any
  save_entries-failed [] s h = absurd (omega arith)
  save_entries-failed ((j, e) ∷ m) s h =
      ground (arith, save_entries-failed m (save_entry api o j e s).store)

  delete_removed-failed :
      (m : List ((ℕ × ℕ) × Unit {0})) (s : S)
      → 0 < (delete_removed api o m s).failed
      → (delete_removed api o m s).left ≢ []
  unfolding delete_removed
  delete_removed-failed [] s h = absurd (omega arith)
  delete_removed-failed ((j, u) ∷ m) s h =
      ground (arith, delete_removed-failed m (o.delete_outgoing_index j s).1)

  -- A save that reports an error leaves work for the next one: a dirty entry or a key to remove.
  pub save-err :
      (c : OutgoingIndexCache) (s : S) (e : Cause)
      → (save api o c s).0 ≡ err e
      → (any (λ (x : (ℕ × ℕ) × OutgoingIndexEntry). x.1.is_dirty) (save api o c s).1.cache ≡ true)
        ⊎ ((save api o c s).1.removed ≢ [])
  unfolding save
  save-err c s e h = elim (dec_lt 0 (save_entries api o c.cache s).failed) [
    | yes p ↦ inl (save_entries-failed c.cache s p)
    | no p ↦
        inr (delete_removed-failed c.removed (save_entries api o c.cache s).store (ground arith))
  ]
