-- ===== src/TicketManager/Tests/Index.antt =====
-- The counter of outgoing indices at concrete inputs.
use hopr_impls.Base.{ℕ, ◌≡◌, refl, List, [], ◌∷◌, arith, ◌==◌, if◌then◌else◌, ◌<◌, false}
use hopr_impls.TicketManager.Index.Defs.{current}
use hopr_impls.TicketManager.Index.Steps.{asked, saved, System, run, step, advance, returned}
use hopr_impls.TicketManager.Index.Unique.{increment_at_least_unique, Begins}
use hopr_impls.TicketManager.Index.Save.{two_calls, lossy, save-loses_update}
use hopr_impls.TicketManager.Tests.Data.{api, entry}

-- Call 0 asks for 7, all others for 0.
abbrev race : System
race = record { entry = entry; pc = λ i. asked (if i == 0 then 7 else 0) }

abbrev moves : List ℕ
moves = 0 ∷ 1 ∷ 0 ∷ 1 ∷ 0 ∷ 0 ∷ []

race-Begins : (i : ℕ) → Begins 7 (race.pc i)
race-Begins i = ground arith

abbrev racer : ℕ
racer = 1

increment_at_least_unique_example : racer ≡ racer
unfolding run step advance
increment_at_least_unique_example =
    increment_at_least_unique api 7 race moves (omega arith) race-Begins (omega arith) racer racer 6
      refl refl (omega arith)

save-loses_update_example :
    let t = run api (two_calls entry 0) lossy in
    (t.entry.is_dirty ≡ false)
    × (t.pc 0 ≡ saved (current api entry))
    × (t.pc 1 ≡ returned 0 5)
    × (current api entry < current api t.entry)
save-loses_update_example = save-loses_update api entry 0 refl (omega arith) (omega arith)
