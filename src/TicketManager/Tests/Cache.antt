-- ===== src/TicketManager/Tests/Cache.antt =====
-- Saving the counters at concrete inputs.
use hopr_impls.Base.{◌≡◌, refl, []}
use hopr_impls.Base.Keyed.{get, pair_key}
use hopr_impls.TicketManager.Cache.Defs.{save, save_entries, save_entry, delete_removed}
use hopr_impls.TicketManager.Cache.Save.{save_lem, unless, saved_index, cleaned}
use hopr_impls.TicketManager.Backend.Memory.{memory_index_store, save_outgoing_index}
use hopr_impls.TicketManager.Backend.Laws.{memory_index_promise}
use hopr_impls.TicketManager.Tests.Data.{api, tracker, store}

save_lem_example :
    (memory_index_promise.stored (1, 1) (save api memory_index_store tracker store).2
      ≡ unless
          (get (1, 1) tracker.removed)
          (saved_index api (get (1, 1) tracker.cache) (memory_index_promise.stored (1, 1) store)))
    × (get (1, 1) (save api memory_index_store tracker store).1.cache
        ≡ cleaned (get (1, 1) tracker.cache))
    × ((save api memory_index_store tracker store).1.removed ≡ [])
unfolding save save_entries save_entry delete_removed save_outgoing_index get
save_lem_example =
    save_lem api memory_index_store memory_index_promise tracker store (1, 1) (refl, tt) refl
