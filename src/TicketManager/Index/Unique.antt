-- ===== src/TicketManager/Index/Unique.antt =====
-- No two calls of `increment_at_least` are given one index, however they interleave.
use hopr_impls.Base.{
  ℕ, suc, ◌+◌, ◌≤◌, ◌<◌, min, ◌≡◌, refl, Option, none, some, List, [], ◌∷◌, arith, length, ◌==◌,
  Bool-cases, inl, inr,
}
use native.Mathlib.Nat.{zero-add}
use native.Mathlib.Numerals.{add-one}
use hopr_impls.HoprApi.{HoprApi}
use hopr_impls.TicketManager.Index.Defs.{u64_mod}
use hopr_impls.TicketManager.Index.Steps.{
  Pc, asked, behind, lifted, took, returned, setting, saving, advance, System, update, step, run,
  result,
}

-- The index that a call has taken for good.
abbrev pub taken : Pc → Option ℕ
taken (took least v) = some v
taken (returned least v) = some v
taken _ = none

-- What a call may still lift the counter to stays within `top`, and what it took is large enough.
abbrev pub IsFair : ℕ → ℕ → Pc → Type 0
IsFair top index (asked least) = least ≤ top
IsFair top index (behind least) = least ≤ top
IsFair top index (lifted least) = (least ≤ top) × (least ≤ index)
IsFair top index (took least v) = (least ≤ v) × (v < index)
IsFair top index (returned least v) = (least ≤ v) × (v < index)
IsFair top index (setting v) = v ≤ top
IsFair top index _ = Unit

pub record Inv (top moves : ℕ) (s : System) : Type 0 where
  pub room : s.entry.index ≤ top + moves
  pub fair : (i : ℕ) → IsFair top s.entry.index (s.pc i)
  pub unique : (i j v : ℕ) → taken (s.pc i) ≡ some v → taken (s.pc j) ≡ some v → i ≡ j

module _ (api : HoprApi) {top moves : ℕ} {s : System} (inv : Inv top moves s)
    (small : top + moves + 1 < u64_mod) (i : ℕ) where
  open inv use {room, fair, unique}

  advance-room :
      (p : Pc)
      → s.pc i ≡ p
      → IsFair top s.entry.index p
      → ((advance api s.entry p).0.index ≤ top + (moves + 1))
        × (s.entry.index ≤ (advance api s.entry p).0.index)
        × IsFair top (advance api s.entry p).0.index (advance api s.entry p).1
  unfolding advance
  advance-room (asked least) e f = ground arith
  advance-room p e f = ground arith

  IsFair-mono : (p : Pc) (m n : ℕ) → m ≤ n → IsFair top m p → IsFair top n p
  IsFair-mono (asked least) m n le f = f
  IsFair-mono p m n le f = ground arith

  advance-IsFair :
      (p : Pc)
      → s.pc i ≡ p
      → IsFair top s.entry.index p
      → (j : ℕ)
      → IsFair top (advance api s.entry p).0.index (update s.pc i (advance api s.entry p).1 j)
  advance-IsFair p e f j = elim (Bool-cases (i == j)) [
    | inl here ↦ rw here (advance-room p e f).2
    | inr away ↦ rw away (IsFair-mono (s.pc j) _ _ (advance-room p e f).1 (fair j))
  ]

  advance_unique :
      (p : Pc)
      → s.pc i ≡ p
      → (a b v : ℕ) → taken (update s.pc i (advance api s.entry p).1 a) ≡ some v
      → taken (update s.pc i (advance api s.entry p).1 b) ≡ some v
      → a ≡ b
  unfolding advance
  advance_unique (asked least) e a b v = ground (arith, fair a, fair b, unique a b v)
  advance_unique p e a b v = ground (arith, fair a, fair b, unique a b v)

  step-Inv : Inv top (moves + 1) (step api s i)
  unfolding step
  step-Inv = record {
    room = (advance-room (s.pc i) refl (fair i)).0;
    fair = advance-IsFair (s.pc i) refl (fair i);
    unique = advance_unique (s.pc i) refl;
  }

run-Inv :
    (api : HoprApi) (top moves : ℕ) (s : System) (is : List ℕ)
    → Inv top moves s
    → top + moves + length is + 1 < u64_mod
    → Inv top (moves + length is) (run api s is)
unfolding run
run-Inv api top moves s [] inv small = record {
  room = omega arith;
  fair = inv.fair;
  unique = inv.unique;
}
run-Inv api top moves s (i ∷ is) inv small =
    let e : suc moves + length is ≡ moves + suc (length is) = omega arith in
    let r : Inv top (suc moves + length is) (run api (step api s i) is) =
      run-Inv api top (suc moves) (step api s i) is
        (rw (← add-one) (step-Inv api inv (omega arith) i)) (omega arith) in
    rw e at r

-- Calls that have not begun, on a counter no greater than `top`.
abbrev pub Begins : ℕ → Pc → Type 0
Begins top (asked least) = least ≤ top
Begins top (setting v) = v ≤ top
Begins top saving = Unit
Begins top _ = ⊥

Begins-Inv :
    (top : ℕ) (s : System) → s.entry.index ≤ top → ((i : ℕ) → Begins top (s.pc i)) → Inv top 0 s
Begins-Inv top s h begins = record {
  room = omega arith;
  fair = λ i. ground (arith, begins i);
  unique = λ i j v. ground (arith, begins i);
}

result-taken :
    (api : HoprApi) (p : Pc) (v : ℕ)
    → result api p ≡ some v
    → v < api.max_ticket_index
    → taken p ≡ some v
result-taken api (asked least) v r h = cc
result-taken api p v r h = ground arith

module _ (api : HoprApi) (top : ℕ) (s : System) (is : List ℕ) (h : s.entry.index ≤ top)
    (begins : (i : ℕ) → Begins top (s.pc i)) (small : top + length is + 1 < u64_mod) where
  final-Inv : Inv top (length is) (run api s is)
  final-Inv =
      let r : Inv top (0 + length is) (run api s is) =
        run-Inv api top 0 s is (Begins-Inv top s h begins) (omega arith) in
      rw zero-add at r

  -- On an entry whose counter is at most `top`, let calls begin that ask for at most `top`, with
  -- fewer atomic operations in all than would wrap the 64-bit counter. However the operations
  -- interleave, two calls of `increment_at_least` that return the same index below the maximum
  -- are one call.
  pub increment_at_least_unique :
      (i j v : ℕ)
      → result api ((run api s is).pc i) ≡ some v
      → result api ((run api s is).pc j) ≡ some v
      → v < api.max_ticket_index
      → i ≡ j
  increment_at_least_unique i j v p q lt =
      final-Inv.unique i j v (result-taken api _ v p lt) (result-taken api _ v q lt)

  -- Under the same conditions each call returns at least what it asked for, or the maximum.
  pub increment_at_least-ge :
      (i least v : ℕ)
      → (run api s is).pc i ≡ returned least v
      → (result api ((run api s is).pc i) ≡ some (min v api.max_ticket_index))
        × (min least api.max_ticket_index ≤ min v api.max_ticket_index)
        × (v < (run api s is).entry.index)
  increment_at_least-ge i least v p = ground (arith, final-Inv.fair i)
