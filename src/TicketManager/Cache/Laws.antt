-- ===== src/TicketManager/Cache/Laws.antt =====
-- The cache through the counter of each key.
use hopr_impls.Base.{ℕ, ◌+◌, ◌<◌, min, max, ◌≡◌, true, arith, if◌then◌else◌}
use hopr_impls.Base.Keyed.{pair_key, get, get-insert, same_pair, same_pair_iff}
use hopr_impls.Base.Keyed
use hopr_impls.HoprApi.{HoprApi}
use hopr_impls.TicketManager.Index.Defs.{u64_mod, new, increment_at_least, set}
use hopr_impls.TicketManager.Cache.Defs.{
  OutgoingIndexCache, entry_or, next_at_least, upsert, remove,
}

-- The counter of a key; a key without an entry counts from 0.
abbrev pub counter : ℕ × ℕ → OutgoingIndexCache → ℕ
counter k c = (entry_or (record { index = 0; is_dirty = true }) (get k c.cache)).index

module _ (api : HoprApi) where
  -- Within the range of `u64` the call returns the greater of the counter and `least`, saturated,
  -- moves the counter of its key past it, and touches no other counter.
  pub next_at_least_lem :
      (k : ℕ × ℕ) (least : ℕ) (c : OutgoingIndexCache)
      → counter k c + 1 < u64_mod
      → least + 1 < u64_mod
      → let (c', v) = next_at_least api k least c in
        (v ≡ min (max (counter k c) least) api.max_ticket_index)
        × ((j : ℕ × ℕ)
            → counter j c' ≡ (if same_pair k j then max (counter k c) least + 1 else counter j c))
  unfolding next_at_least new increment_at_least
  next_at_least_lem k least c h l = (
    ground arith,
    λ j. ground (
      arith,
      get-insert k j (increment_at_least api least (entry_or (new 0) (get k c.cache))).0 c.cache,
    ),
  )

  -- The counter rises to the given index if it was below.
  pub upsert_lem :
      (k : ℕ × ℕ) (i : ℕ) (c : OutgoingIndexCache)
      → let (c', v) = upsert api k i c in
        (v ≡ min (max (counter k c) i) api.max_ticket_index)
        × ((j : ℕ × ℕ)
            → counter j c' ≡ (if same_pair k j then max (counter k c) i else counter j c))
  unfolding upsert new set
  upsert_lem k i c = (
    ground arith,
    λ j. ground (arith, get-insert k j (set api i (entry_or (new i) (get k c.cache))).0 c.cache),
  )

-- The counter of the key starts again from 0, and `true` says that there was one.
pub remove_lem :
    (k : ℕ × ℕ) (c : OutgoingIndexCache) (j : ℕ × ℕ)
    → counter j (remove k c).0 ≡ (if same_pair k j then 0 else counter j c)
unfolding remove
remove_lem k c j = ground (arith, Keyed.get-remove k j c.cache, same_pair_iff k j)
