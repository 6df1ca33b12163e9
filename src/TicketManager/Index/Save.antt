-- ===== src/TicketManager/Index/Save.antt =====
-- `save` against concurrent calls: when a saved index is lost, and when it is not.
use hopr_impls.Base.{ℕ, ◌+◌, ◌<◌, max, ◌≡◌, true, false, List, [], ◌∷◌, arith, ◌==◌, if◌then◌else◌}
use hopr_impls.HoprApi.{HoprApi}
use hopr_impls.TicketManager.Index.Defs.{OutgoingIndexEntry, u64_mod, current}
use hopr_impls.TicketManager.Index.Steps.{
  asked, saving, saved, System, step, run, advance, returned,
}

-- A `save` as call 0 and an `increment_at_least` as call 1.
abbrev pub two_calls : OutgoingIndexEntry → ℕ → System
two_calls e least = record { entry = e; pc = λ i. if i == 0 then saving else asked least }

-- `save` reads and writes the index, the whole of `increment_at_least` runs, `save` marks clean.
abbrev pub lossy : List ℕ
lossy = 0 ∷ 0 ∷ 1 ∷ 1 ∷ 1 ∷ 1 ∷ 0 ∷ []

-- `save` finishes before the other call begins.
abbrev pub orderly : List ℕ
orderly = 0 ∷ 0 ∷ 0 ∷ 1 ∷ 1 ∷ 1 ∷ 1 ∷ []

module _ (api : HoprApi) (e : OutgoingIndexEntry) (least : ℕ) (dirty : e.is_dirty ≡ true)
    (room : max e.index least + 1 < u64_mod)
    (below : max e.index least < api.max_ticket_index) where
  -- If a call of `increment_at_least` runs between the read of a dirty entry's index and
  -- `mark_clean`, and the index that it takes is below the maximum, then in the end the entry is
  -- clean although the index written to the store is below the current one: the next `save`
  -- skips it.
  pub save-loses_update :
      let t = run api (two_calls e least) lossy in
      (t.entry.is_dirty ≡ false)
      × (t.pc 0 ≡ saved (current api e))
      × (t.pc 1 ≡ returned least (max e.index least))
      × (current api e < current api t.entry)
  unfolding run step advance current
  save-loses_update = ground arith

  -- If the call runs after `mark_clean`, the entry is dirty again and the next `save` writes it.
  pub save-keeps_update :
      let t = run api (two_calls e least) orderly in
      (t.entry.is_dirty ≡ true)
      × (t.pc 0 ≡ saved (current api e))
      × (t.pc 1 ≡ returned least (max e.index least))
  unfolding run step advance current
  save-keeps_update = ground arith
