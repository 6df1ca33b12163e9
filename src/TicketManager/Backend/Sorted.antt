-- ===== src/TicketManager/Backend/Sorted.antt =====
-- ticket-manager/src/backend/memory.rs: what a heap of tickets holds, in the natural order, and that
-- the heap gives out its tickets in this order.
use hopr_impls.Base.{
  suc, ◌≡◌, refl, ◌∙◌, ap, ◌⊎◌, inl, inr, true, none, some, Option, List, [], ◌∷◌, arith, length,
  Option-cases, Bool-cases, head?, tail, sym, subst, false,
}
use mathlib.Core.List.{Perm}
use mathlib.Core.List.Perm
use hopr_impls.HoprApi.{HoprApi, Ticket}
use hopr_impls.TicketManager.Queue.Traits.{place}
use hopr_impls.TicketManager.Backend.Memory.{take_least, with_least, first_of, others_of}

-- Of two tickets one is not after the other.
abbrev pub IsTotal : HoprApi → Type 0
IsTotal api = (t u : Ticket) → (api.ticket_le t u ≡ true) ⊎ (api.ticket_le u t ≡ true)

module _ (api : HoprApi) where
  -- The tickets of a heap in the natural order.
  unfoldable pub sorted : List Ticket → List Ticket
  sorted [] = []
  sorted (t ∷ ts) = place api t (sorted ts)

  place-Perm : (t : Ticket) (ts : List Ticket) → Perm (t ∷ ts) (place api t ts)
  unfolding place
  place-Perm t [] = Perm.refl (t ∷ [])
  place-Perm t (u ∷ us) = elim (Bool-cases (api.ticket_le t u)) [
    | inl le ↦ rw (le, place) (Perm.refl (t ∷ u ∷ us))
    | inr gt ↦
        let later : Perm (t ∷ u ∷ us) (u ∷ place api t us) =
          Perm.trans (Perm.swap u t us) (Perm.cons u (place-Perm t us)) in
        rw (gt, place) later
  ]

  pub sorted-Perm : (ts : List Ticket) → Perm ts (sorted ts)
  unfolding sorted
  sorted-Perm [] = Perm.refl []
  sorted-Perm (t ∷ ts) = Perm.trans (Perm.cons t (sorted-Perm ts)) (place-Perm t (sorted ts))

  length-place : (t : Ticket) (ts : List Ticket) → length (place api t ts) ≡ suc (length ts)
  unfolding place
  length-place t [] = refl
  length-place t (u ∷ us) = ground (arith, length-place t us)

  pub length-sorted : (ts : List Ticket) → length (sorted ts) ≡ length ts
  unfolding sorted
  length-sorted [] = refl
  length-sorted (t ∷ ts) = ground (arith, length-place t (sorted ts), length-sorted ts)

  -- No ticket of an ordered list is before the ticket.
  abbrev pub Leads : Ticket → List Ticket → Type 0
  Leads t [] = Unit
  Leads t (u ∷ us) = api.ticket_le t u ≡ true

  place-first : (t : Ticket) (ts : List Ticket) → Leads t ts → place api t ts ≡ t ∷ ts
  unfolding place
  place-first t [] le = refl
  place-first t (u ∷ us) le = ground (arith, le)

  place-Leads :
      (t u : Ticket) (us : List Ticket)
      → api.ticket_le u t ≡ true
      → Leads u us
      → Leads u (place api t us)
  unfolding place
  place-Leads t u [] le first = le
  place-Leads t u (v ∷ vs) le first = elim (Bool-cases (api.ticket_le t v)) [
    | inl before ↦ rw (before, place) le
    | inr behind ↦ rw (behind, place) first
  ]

  place-later :
      (t u : Ticket) (us : List Ticket)
      → api.ticket_le t u ≡ false
      → place api t (u ∷ us) ≡ u ∷ place api t us
  unfolding place
  place-later t u us gt = rw (gt, place) refl

  -- What a heap gives out is first in the natural order, and the other tickets follow.
  abbrev pub IsTaken : List Ticket → Option (Ticket × List Ticket) → Type 0
  IsTaken ts none = sorted ts ≡ []
  IsTaken ts (some (u, us)) = (sorted ts ≡ u ∷ sorted us) × Leads u (sorted us)

  first_of_lem :
      (ts : List Ticket) (o : Option (Ticket × List Ticket))
      → IsTaken ts o
      → first_of o ≡ head? (sorted ts)
  first_of_lem ts none e = ap head? (sym e)
  first_of_lem ts (some (u, us)) (e, _) = ap head? (sym e)

  others_of_lem :
      (ts : List Ticket) (o : Option (Ticket × List Ticket))
      → IsTaken ts o
      → sorted (others_of o) ≡ tail (sorted ts)
  unfolding sorted
  others_of_lem ts none e = ap tail (sym e)
  others_of_lem ts (some (u, us)) (e, _) = ap tail (sym e)

  module _ (total : IsTotal api) where
    with_least-IsTaken :
        (t u : Ticket) (us ts : List Ticket)
        → IsTaken ts (some (u, us))
        → IsTaken (t ∷ ts) (some (with_least api t (some (u, us))))
    unfolding sorted
    with_least-IsTaken t u us ts (s, first) = elim (Bool-cases (api.ticket_le t u)) [
      | inl le ↦
          let same : sorted (u ∷ us) ≡ u ∷ sorted us = place-first u (sorted us) first in
          rw le (
            ap (place api t) s ∙ place-first t (u ∷ sorted us) le ∙ ap (λ l. t ∷ l) (sym same),
            subst (Leads t) (sym same) le,
          )
      | inr gt ↦
          let back : api.ticket_le u t ≡ true = elim (total t u) [
            | inl le ↦ ground (arith, le, gt)
            | inr ge ↦ ge
          ] in
          rw gt (
            ap (place api t) s ∙ place-later t u (sorted us) gt,
            place-Leads t u (sorted us) back first,
          )
    ]

    pub take_least-IsTaken : (ts : List Ticket) → IsTaken ts (take_least api ts)
    unfolding take_least sorted place
    take_least-IsTaken [] = refl
    take_least-IsTaken (t ∷ ts) = elim (Option-cases (take_least api ts)) [
      | inl e ↦
          let empty : sorted ts ≡ [] = subst (IsTaken ts) e (take_least-IsTaken ts) in
          rw e (ap (place api t) empty, tt)
      | inr ((u, us), e) ↦
          rw e (with_least-IsTaken t u us ts (subst (IsTaken ts) e (take_least-IsTaken ts)))
    ]

    pub first_lem : (ts : List Ticket) → first_of (take_least api ts) ≡ head? (sorted ts)
    first_lem ts = first_of_lem ts (take_least api ts) (take_least-IsTaken ts)

    pub others_lem : (ts : List Ticket) → sorted (others_of (take_least api ts)) ≡ tail (sorted ts)
    others_lem ts = others_of_lem ts (take_least api ts) (take_least-IsTaken ts)
