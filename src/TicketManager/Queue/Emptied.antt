-- ===== src/TicketManager/Queue/Emptied.antt =====
-- `drain` of a `ValueCachedQueue` returns the tickets in order and leaves an exact, empty adapter.
use hopr_impls.Base.{
  ℕ, zero, suc, ◌<◌, ◌≡◌, subst, List, [], ◌∷◌, ok, arith, length, head?, Result-cases, inl, inr,
  Option, none, some,
}
use hopr_impls.HoprApi.{HoprApi, Ticket}
use hopr_impls.TicketManager.Queue.Traits.{TicketQueue, IsTicketQueue}
use hopr_impls.TicketManager.Queue.Cached.{ValueCachedQueue, pop, drain, drained}
use hopr_impls.TicketManager.Queue.Value.{
  IsUniform, AreOf, IsCached, pop-IsCached, nil_of_head, cons_of_head,
}

module _ (api : HoprApi) {S : Type 0} (q : TicketQueue S) (lawful : IsTicketQueue api q) where
  open lawful use {contents}

  -- With more fuel than tickets, a drain without error returns all tickets in their order, leaves
  -- the queue empty, and the adapter agrees with it.
  pub drain-IsCached :
      (fuel : ℕ) (v : ValueCachedQueue) (s : S) (ts : List Ticket)
      → IsCached api q lawful v s
      → length (contents v.queue s) < fuel
      → (drain api q fuel v s).0 ≡ ok ts
      → let (_, v', s') = drain api q fuel v s in
        IsCached api q lawful v' s' × (ts ≡ contents v.queue s) × (contents v'.queue s' ≡ [])
  unfolding drain
  drain-IsCached zero v s ts c lt h = absurd (omega arith)
  drain-IsCached (suc fuel) v s ts c lt h = elim (Result-cases (pop api q v s).0) [
    | inr (x, p) ↦ ground (arith, p)
    | inl (none, p) ↦
        let (kept, none_left, rest) = pop-IsCached api q lawful v s none c p in
        let empty = nil_of_head (contents v.queue s) none_left in
        rw (p, drained) (kept, ground (arith, p, empty), ground (arith, rest, empty))
    | inl (some t, p) ↦
        let (kept, first, rest) = pop-IsCached api q lawful v s (some t) c p in
        let split = cons_of_head t (contents v.queue s) first in
        let v' : ValueCachedQueue = (pop api q v s).1 in
        let s' : S = (pop api q v s).2 in
        elim (Result-cases (drain api q fuel v' s').0) [
          | inr (x, e) ↦ ground (arith, p, e)
          | inl (us, e) ↦
              let (c', all, none_left) =
                drain-IsCached fuel v' s' us kept (ground (arith, split, rest)) e in
              rw (p, drained) (c', ground (arith, p, e, all, rest, split), none_left)
        ]
  ]

-- The first ticket tells the epoch of all.
pub AreOf-head :
    (c : Option ℕ) (ts : List Ticket) (u : Ticket)
    → IsUniform c ts
    → head? ts ≡ some u
    → AreOf u.channel_epoch ts
AreOf-head none [] u i h = cc
AreOf-head none (t ∷ ts) u i h = cc
AreOf-head (some e) [] u i h = cc
AreOf-head (some e) (t ∷ ts) u i h =
    let same : e ≡ u.channel_epoch = ground (arith, i.1.0, h) in
    subst (λ (n : ℕ). AreOf n (t ∷ ts)) same i.1
