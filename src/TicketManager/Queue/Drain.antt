-- ===== src/TicketManager/Queue/Drain.antt =====
-- `drain` empties a queue in the natural order.
use hopr_impls.Base.{
  ℕ, zero, suc, ◌<◌, ◌≡◌, List, [], ok, arith, length, ◌==◌, if◌then◌else◌, Result-cases, inl, inr,
}
use hopr_impls.HoprApi.{HoprApi, Ticket}
use hopr_impls.TicketManager.Queue.Traits.{TicketQueue, IsTicketQueue, drain}

module _ (api : HoprApi) {S : Type 0} (q : TicketQueue S) (lawful : IsTicketQueue api q) where
  open lawful use {contents, pop_lem, contents-pop}

  -- With more fuel than tickets, a drain without error returns all tickets of the queue in their
  -- order and leaves it empty, and every other queue as it was.
  pub drain_lem :
      (fuel h j : ℕ) (s : S) (ts : List Ticket)
      → length (contents h s) < fuel
      → (drain q fuel h s).0 ≡ ok ts
      → (ts ≡ contents h s)
        × (contents j (drain q fuel h s).1 ≡ (if h == j then [] else contents j s))
  unfolding drain
  drain_lem zero h j s ts lt e = absurd (omega arith)
  drain_lem (suc fuel) h j s ts lt e = elim (Result-cases (q.pop h s).0) [
    | inl (r, p) ↦
        let s' : S = (q.pop h s).1 in
        elim (Result-cases (drain q fuel h s').0) [
          | inl (us, d) ↦ ground (
            arith,
            p,
            pop_lem h s r p,
            contents-pop h h s,
            contents-pop h j s,
            d,
            drain_lem fuel h j s' us,
          )
          | inr (x, d) ↦
              ground (arith, p, pop_lem h s r p, contents-pop h h s, contents-pop h j s, d)
        ]
    | inr (x, p) ↦ ground (arith, p)
  ]
