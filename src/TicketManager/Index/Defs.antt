-- ===== src/TicketManager/Index/Defs.antt =====
-- ticket-manager/src/utils.rs, `OutgoingIndexEntry`: the counter of outgoing ticket indices of one
-- channel and epoch. Each method is one indivisible call here; the interleavings of its atomic
-- operations are in the module Steps. An index is a `u64`, and `fetch_add` wraps around.
use hopr_impls.Base.{ℕ, ◌+◌, ◌%◌, ◌^◌, min, max, Bool, true, false, ltb, leb, if◌then◌else◌}
use hopr_impls.HoprApi.{HoprApi}

pub record OutgoingIndexEntry : Type 0 where
  pub index : ℕ
  pub is_dirty : Bool

-- `OutgoingIndexEntry::new`
unfoldable pub new : ℕ → OutgoingIndexEntry
new i = record { index = i; is_dirty = true }

abbrev pub u64_mod : ℕ
u64_mod = 2 ^ 64

-- What `fetch_add(1)` leaves in the counter.
abbrev pub fetch_add : ℕ → ℕ
fetch_add i = (i + 1) % u64_mod

module _ (api : HoprApi) where
  -- The end of `increment_at_least`: the dirty flag and the saturated result.
  unfoldable pub finish : OutgoingIndexEntry → ℕ → OutgoingIndexEntry × ℕ
  finish e v = (
    (if leb v api.max_ticket_index then record e { is_dirty = true } else e),
    min v api.max_ticket_index,
  )

  unfoldable pub increment_at_least : ℕ → OutgoingIndexEntry → OutgoingIndexEntry × ℕ
  unfolding finish
  increment_at_least least e =
      if ltb e.index least
      then finish (record e { index = fetch_add (max (fetch_add e.index) least) })
          (max (fetch_add e.index) least)
      else finish (record e { index = fetch_add e.index }) e.index

  unfoldable pub set : ℕ → OutgoingIndexEntry → OutgoingIndexEntry × ℕ
  set v e = (
    record { index = max e.index v; is_dirty = if ltb e.index v then true else e.is_dirty },
    min (max v e.index) api.max_ticket_index,
  )

  unfoldable pub current : OutgoingIndexEntry → ℕ
  current e = min e.index api.max_ticket_index

unfoldable pub mark_clean : OutgoingIndexEntry → OutgoingIndexEntry
mark_clean e = record e { is_dirty = false }
