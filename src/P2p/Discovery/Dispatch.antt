-- ===== src/P2p/Discovery/Dispatch.antt =====
-- The loop over due dials: what each round preserves the loop preserves, and a round for each entry
-- of the heap is enough.
use hopr_impls.Base.{
  ℕ, zero, suc, ◌≤◌, ◌≡◌, refl, Option, none, some, List, [], ◌∷◌, length, arith, Option-cases, inl,
  inr, if_lem,
}
use hopr_impls.Base.Keyed.{nat_key, get, remove}
use hopr_impls.P2p.Discovery.Defs.{Network, Delayed, Behaviour, contains, cancel_dial}
use hopr_impls.P2p.Discovery.Poll.{pop_due, push_dial_event, dispatch_dial, dispatch_due, dispatch}
use hopr_impls.P2p.Discovery.Heap.{length-drop_dials}

-- What the pop of a due entry does to the heap.
pop_due_lem :
    (now : ℕ) (ds : List Delayed) (p : ℕ) (rest : List Delayed)
    → pop_due now ds ≡ some (p, rest)
    → (t : ℕ) × (t ≤ now) × (ds ≡ record { release_at = t; item = p } ∷ rest)
pop_due_lem now [] p rest h = ground (arith, h)
pop_due_lem now (d ∷ ds) p rest h = (d.release_at, ground (arith, h), ground (arith, h))

module _ {B : Type 0} (net : Network B) where
  push_event-length :
      (p : ℕ) (known : Option (List ℕ)) (s : Behaviour B)
      → length (push_dial_event net p known s).next_dial_attempts ≤ length s.next_dial_attempts
  unfolding cancel_dial
  push_event-length p none s = length-drop_dials p s.next_dial_attempts
  push_event-length p (some []) s = length-drop_dials p s.next_dial_attempts
  push_event-length p (some (a ∷ rest)) s = omega arith

  dispatch_dial-length :
      (p : ℕ) (s : Behaviour B)
      → length (dispatch_dial net p s).next_dial_attempts ≤ length s.next_dial_attempts
  unfolding dispatch_dial
  dispatch_dial-length p s =
      let popped : Behaviour B = record s { queued_dials = remove p s.queued_dials } in
      if_lem (λ (x : Behaviour B). length x.next_dial_attempts ≤ length s.next_dial_attempts)
        (contains p s.not_connected_peers)
        (λ _. push_event-length p (get p s.bootstrap_peers) popped) (λ _. omega arith)

  module _ {ℓ} (P : Behaviour B → Type ℓ) (now : ℕ)
      (round : (p t : ℕ) (rest : List Delayed) (s : Behaviour B)
        → P s
        → s.next_dial_attempts ≡ record { release_at = t; item = p } ∷ rest
        → P (dispatch_dial net p (record s { next_dial_attempts = rest }))) where
    dispatch_step :
        (fuel : ℕ) (s : Behaviour B) (due : Option (ℕ × List Delayed))
        → pop_due now s.next_dial_attempts ≡ due
        → ((s' : Behaviour B) → P s' → P (dispatch net fuel now s'))
        → P s
        → P (dispatch_due net (dispatch net fuel now) due s)
    dispatch_step fuel s none e next w = w
    dispatch_step fuel s (some (p, rest)) e next w =
        let (t, _, h) = pop_due_lem now s.next_dial_attempts p rest e in
        next (dispatch_dial net p (record s { next_dial_attempts = rest })) (round p t rest s w h)

    pub dispatch_invariant : (fuel : ℕ) (s : Behaviour B) → P s → P (dispatch net fuel now s)
    unfolding dispatch
    dispatch_invariant zero s w = w
    dispatch_invariant (suc fuel) s w =
        dispatch_step fuel s (pop_due now s.next_dial_attempts) refl (dispatch_invariant fuel) w

  dispatch_step-finished :
      (fuel now : ℕ) (s : Behaviour B) (due : Option (ℕ × List Delayed))
      → pop_due now s.next_dial_attempts ≡ due
      → ((s' : Behaviour B)
          → length s'.next_dial_attempts ≤ fuel
          → pop_due now (dispatch net fuel now s').next_dial_attempts ≡ none)
      → length s.next_dial_attempts ≤ suc fuel
      → pop_due now (dispatch_due net (dispatch net fuel now) due s).next_dial_attempts ≡ none
  dispatch_step-finished fuel now s none e next l = e
  dispatch_step-finished fuel now s (some (p, rest)) e next l =
      let (t, _, h) = pop_due_lem now s.next_dial_attempts p rest e in
      let popped : Behaviour B = record s { next_dial_attempts = rest } in
      next (dispatch_dial net p popped) (ground (arith, l, h, dispatch_dial-length p popped))

  -- The first entry of the heap after the loop is not due, if the bound on its rounds is not below
  -- the number of entries that it starts with.
  pub dispatch-finished :
      (fuel now : ℕ) (s : Behaviour B)
      → length s.next_dial_attempts ≤ fuel
      → pop_due now (dispatch net fuel now s).next_dial_attempts ≡ none
  unfolding dispatch
  dispatch-finished zero now s l = elim (Option-cases (pop_due now s.next_dial_attempts)) [
    | inl e ↦ e
    | inr ((p, rest), e) ↦
        let (t, _, h) = pop_due_lem now s.next_dial_attempts p rest e in ground (arith, l, h)
  ]
  dispatch-finished (suc fuel) now s l =
      dispatch_step-finished fuel now s (pop_due now s.next_dial_attempts) refl
        (dispatch-finished fuel now) l
