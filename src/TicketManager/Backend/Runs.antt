-- ===== src/TicketManager/Backend/Runs.antt =====
-- ticket-manager/src/backend/memory.rs: what a sequence of calls of memory queues answers.
use hopr_impls.Base.{ℕ, Option, List, [], ◌∷◌, Result, ok, if◌then◌else◌, ◌==◌, head?, tail}
use hopr_impls.HoprApi.{HoprApi, Ticket}
use hopr_impls.TicketManager.Queue.Traits.{place}
use hopr_impls.TicketManager.Backend.Memory.{MemoryStore, push, pop, peek}

-- A call on the queue of a handle.
pub data QueueCall : Type 0 where
  pushes : ℕ → Ticket → QueueCall
  pops peeks : ℕ → QueueCall

module _ (api : HoprApi) where
  -- The answers of the memory queues to `pop` and `peek`.
  abbrev pub answers : List QueueCall → MemoryStore → List (Result ℕ (Option Ticket))
  answers [] s = []
  answers (pushes h t ∷ cs) s = answers cs (push h t s).1
  answers (pops h ∷ cs) s = (pop api h s).0 ∷ answers cs (pop api h s).1
  answers (peeks h ∷ cs) s = peek api h s ∷ answers cs s

  -- The answers of ordered lists, one for each handle: a ticket is put in its place, and the first
  -- one is given out.
  abbrev pub ordered_answers : List QueueCall → (ℕ → List Ticket) → List (Result ℕ (Option Ticket))
  ordered_answers [] f = []
  ordered_answers (pushes h t ∷ cs) f =
      ordered_answers cs (λ j. if h == j then place api t (f j) else f j)
  ordered_answers (pops h ∷ cs) f =
      ok (head? (f h)) ∷ ordered_answers cs (λ j. if h == j then tail (f j) else f j)
  ordered_answers (peeks h ∷ cs) f = ok (head? (f h)) ∷ ordered_answers cs f
