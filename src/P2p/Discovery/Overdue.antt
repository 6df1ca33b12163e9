-- ===== src/P2p/Discovery/Overdue.antt =====
-- The entries of the heap that are due.
use hopr_impls.Base.{
  ℕ, ◌<◌, ◌≤◌, ◌≡◌, ◌≢◌, none, List, [], ◌∷◌, arith, Nowhere, ◌⊎◌, inl, inr, if_lem, ◌==◌,
}
use hopr_impls.Base.Keyed.{nat_key}
use hopr_impls.P2p.Discovery.Defs.{Delayed, drop_dials}
use hopr_impls.P2p.Discovery.Poll.{pop_due}
use hopr_impls.P2p.Discovery.Heap.{times, IsLater, IsSorted}

-- The heap has an entry of the peer that is due.
abbrev pub IsDue : (now q : ℕ) → List Delayed → Type 0
IsDue now q [] = Nowhere
IsDue now q (d ∷ ds) = ((d.item ≡ q) × (d.release_at ≤ now)) ⊎ IsDue now q ds

pub drop_dials-IsDue :
    (now p q : ℕ) (ds : List Delayed) → p ≢ q → IsDue now q ds → IsDue now q (drop_dials p ds)
unfolding drop_dials
drop_dials-IsDue now p q [] h k = elim k [ ]
drop_dials-IsDue now p q (d ∷ ds) h (inl k) =
    if_lem (IsDue now q) (d.item == p) (λ e. ground (arith, h, k, e)) (λ _. inl k)
drop_dials-IsDue now p q (d ∷ ds) h (inr k) =
    if_lem (IsDue now q) (d.item == p) (λ _. drop_dials-IsDue now p q ds h k)
      (λ _. inr (drop_dials-IsDue now p q ds h k))

pub times-IsDue : (now q : ℕ) (ds : List Delayed) → IsDue now q ds → 1 ≤ times q ds
unfolding times
times-IsDue now q [] k = elim k [ ]
times-IsDue now q (d ∷ ds) (inl k) = ground (arith, k)
times-IsDue now q (d ∷ ds) (inr k) = ground (arith, times-IsDue now q ds k)

later-IsDue :
    (now q t : ℕ) (ds : List Delayed) → now < t → IsLater t ds → IsDue now q ds → Nowhere {0}
later-IsDue now q t [] h l k = elim k [ ]
later-IsDue now q t (d ∷ ds) h l (inl k) = ground (arith, h, k, l.0)
later-IsDue now q t (d ∷ ds) h l (inr k) = later-IsDue now q t ds h l.1 k

pub first-IsDue :
    (now q : ℕ) (ds : List Delayed)
    → IsSorted ds
    → pop_due now ds ≡ none
    → IsDue now q ds
    → Nowhere {0}
first-IsDue now q [] o h k = elim k [ ]
first-IsDue now q (d ∷ ds) o h (inl k) = ground (arith, h, k)
first-IsDue now q (d ∷ ds) o h (inr k) = later-IsDue now q d.release_at ds (ground (arith, h)) o.0 k
