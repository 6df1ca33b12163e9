-- ===== src/TicketManager/Index/Laws.antt =====
-- One caller at a time: what the methods of `OutgoingIndexEntry` return and leave behind.
use hopr_impls.Base.{ℕ, ◌+◌, ◌≤◌, ◌<◌, min, max, ◌≡◌, true, arith}
use hopr_impls.HoprApi.{HoprApi}
use hopr_impls.TicketManager.Index.Defs.{
  OutgoingIndexEntry, u64_mod, increment_at_least, set, current,
}

module _ (api : HoprApi) where
  -- Without a wrap-around the call takes the greater of the counter and `least`, saturated, and
  -- leaves the counter one above it; the entry is dirty whenever the index taken is in range.
  pub increment_at_least_lem :
      (least : ℕ) (e : OutgoingIndexEntry)
      → e.index + 1 < u64_mod
      → least + 1 < u64_mod
      → let (e', v) = increment_at_least api least e in
        (v ≡ min (max e.index least) api.max_ticket_index)
        × (e'.index ≡ max e.index least + 1)
        × (max e.index least ≤ api.max_ticket_index → e'.is_dirty ≡ true)
  unfolding increment_at_least
  increment_at_least_lem least e h k = ground arith

  -- `set` raises the counter to the value if it was below, and then alone marks the entry dirty.
  pub set_lem :
      (v : ℕ) (e : OutgoingIndexEntry)
      → let (e', r) = set api v e in
        (r ≡ current api e')
        × (e'.index ≡ max e.index v)
        × (e.index < v → e'.is_dirty ≡ true)
        × (v ≤ e.index → e' ≡ e)
  unfolding set current
  set_lem v e = ground arith
