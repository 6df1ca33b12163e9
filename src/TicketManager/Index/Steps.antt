-- ===== src/TicketManager/Index/Steps.antt =====
-- ticket-manager/src/utils.rs: `OutgoingIndexEntry` shared by concurrent calls, an atomic operation
-- at a time. A call is a place `Pc` with its live locals; one that has returned never moves again.
-- `saving` is the body of the loop of `OutgoingIndexCache::save` over this entry, whose write to
-- the store is taken to succeed; every memory order is read as sequentially consistent.
use hopr_impls.Base.{
  ℕ, min, max, true, Option, none, some, List, [], ◌∷◌, ltb, leb, ◌==◌, if◌then◌else◌,
}
use hopr_impls.HoprApi.{HoprApi}
use hopr_impls.TicketManager.Index.Defs.{OutgoingIndexEntry, fetch_add, mark_clean, current}

pub data Pc : Type 0 where
  -- `increment_at_least(least)`: before the first `fetch_add`, before `fetch_max`, before the
  -- second `fetch_add`, before the dirty flag is set, and after the return
  asked behind lifted : (least : ℕ) → Pc
  took returned : (least v : ℕ) → Pc
  -- `set(v)`: before `fetch_max`, before the dirty flag is set, after the return
  setting raised : (v : ℕ) → Pc
  was_set : Pc
  -- `save`: before `is_dirty`, before `get`, after the write, after `mark_clean`
  saving dirty_seen : Pc
  written saved : (v : ℕ) → Pc
  skipped : Pc

module _ (api : HoprApi) where
  -- One atomic operation of a call, up to the next one.
  unfoldable pub advance : OutgoingIndexEntry → Pc → OutgoingIndexEntry × Pc
  unfolding current mark_clean
  advance e (asked least) = (
    record e { index = fetch_add e.index },
    (if ltb e.index least then behind least else took least e.index),
  )
  advance e (behind least) = (record e { index = max e.index least }, lifted least)
  advance e (lifted least) = (record e { index = fetch_add e.index }, took least e.index)
  advance e (took least v) =
      ((if leb v api.max_ticket_index then record e { is_dirty = true } else e), returned least v)
  advance e (setting v) =
      (record e { index = max e.index v }, (if ltb e.index v then raised v else was_set))
  advance e (raised v) = (record e { is_dirty = true }, was_set)
  advance e saving = (e, (if e.is_dirty then dirty_seen else skipped))
  advance e dirty_seen = (e, written (current api e))
  advance e (written v) = (mark_clean e, saved v)
  advance e (returned least v) = (e, returned least v)
  advance e was_set = (e, was_set)
  advance e (saved v) = (e, saved v)
  advance e skipped = (e, skipped)

pub record System : Type 0 where
  pub entry : OutgoingIndexEntry
  pub pc : ℕ → Pc

abbrev pub update : (ℕ → Pc) → ℕ → Pc → ℕ → Pc
update pc i p j = if i == j then p else pc j

module _ (api : HoprApi) where
  unfoldable pub step : System → ℕ → System
  step s i = record {
    entry = (advance api s.entry (s.pc i)).0;
    pc = update s.pc i (advance api s.entry (s.pc i)).1;
  }

  -- A schedule names the call that moves next.
  unfoldable pub run : System → List ℕ → System
  run s [] = s
  run s (i ∷ is) = run (step s i) is

  -- What `increment_at_least` returns, once it has.
  abbrev pub result : Pc → Option ℕ
  result (returned least v) = some (min v api.max_ticket_index)
  result _ = none
