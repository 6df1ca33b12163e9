-- ===== src/TicketManager/Tests/Backend.antt =====
-- The in-memory store at concrete inputs.
use hopr_impls.Base.{List, [], ◌∷◌}
use hopr_impls.TicketManager.Backend.Runs.{QueueCall, pushes, pops, peeks}
use hopr_impls.TicketManager.Tests.Data.{fifth, seventh, next_epoch}

-- Tickets pushed out of order.
abbrev calls : List QueueCall
calls =
    pushes 0 seventh
    ∷ pushes 0 next_epoch
    ∷ peeks 0
    ∷ pushes 0 fifth
    ∷ pops 0
    ∷ pops 0
    ∷ peeks 0
    ∷ []
