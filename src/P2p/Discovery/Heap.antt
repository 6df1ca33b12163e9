-- ===== src/P2p/Discovery/Heap.antt =====
-- The heap of scheduled dials: how often a peer stands in it, and the order of its entries.
use hopr_impls.Base.{ℕ, ◌+◌, ◌≤◌, ◌≡◌, refl, List, [], ◌∷◌, length, arith, All, if◌then◌else◌, ◌==◌}
use hopr_impls.P2p.Discovery.Defs.{Delayed, push_dial, drop_dials}

-- The number of entries of a peer.
unfoldable pub times : ℕ → List Delayed → ℕ
times q [] = 0
times q (d ∷ ds) = (if d.item == q then 1 else 0) + times q ds

abbrev pub IsLater : ℕ → List Delayed → Type 0
IsLater t = All (λ d. t ≤ d.release_at)

abbrev pub IsSorted : List Delayed → Type 0
IsSorted [] = Unit
IsSorted (d ∷ ds) = IsLater d.release_at ds × IsSorted ds

pub times-push_dial :
    (q : ℕ) (d : Delayed) (ds : List Delayed)
    → times q (push_dial d ds) ≡ (if d.item == q then 1 else 0) + times q ds
unfolding times push_dial
times-push_dial q d [] = refl
times-push_dial q d (e ∷ es) = ground (arith, times-push_dial q d es)

pub times-drop_dials :
    (p q : ℕ) (ds : List Delayed) → times q (drop_dials p ds) ≡ (if p == q then 0 else times q ds)
unfolding times drop_dials
times-drop_dials p q [] = ground arith
times-drop_dials p q (d ∷ ds) = ground (arith, times-drop_dials p q ds)

pub IsLater-mono : (t u : ℕ) (ds : List Delayed) → t ≤ u → IsLater u ds → IsLater t ds
IsLater-mono t u [] h l = tt
IsLater-mono t u (d ∷ ds) h l = (omega (arith, h, l.0), IsLater-mono t u ds h l.1)

push_dial-IsLater :
    (t : ℕ) (d : Delayed) (ds : List Delayed)
    → t ≤ d.release_at
    → IsLater t ds
    → IsLater t (push_dial d ds)
unfolding push_dial
push_dial-IsLater t d [] h l = (h, tt)
push_dial-IsLater t d (e ∷ es) h l = ground (arith, push_dial-IsLater t d es h l.1, h, l)

pub push_dial-IsSorted : (d : Delayed) (ds : List Delayed) → IsSorted ds → IsSorted (push_dial d ds)
unfolding push_dial
push_dial-IsSorted d [] o = (tt, tt)
push_dial-IsSorted d (e ∷ es) o = ground (
  arith,
  push_dial-IsSorted d es o.1,
  push_dial-IsLater e.release_at d es,
  IsLater-mono d.release_at e.release_at es,
  o,
)

drop_dials-IsLater : (t p : ℕ) (ds : List Delayed) → IsLater t ds → IsLater t (drop_dials p ds)
unfolding drop_dials
drop_dials-IsLater t p [] l = tt
drop_dials-IsLater t p (d ∷ ds) l = ground (arith, drop_dials-IsLater t p ds l.1, l)

pub drop_dials-IsSorted : (p : ℕ) (ds : List Delayed) → IsSorted ds → IsSorted (drop_dials p ds)
unfolding drop_dials
drop_dials-IsSorted p [] o = tt
drop_dials-IsSorted p (d ∷ ds) o =
    ground (arith, drop_dials-IsSorted p ds o.1, drop_dials-IsLater d.release_at p ds o.0, o)

pub length-drop_dials : (p : ℕ) (ds : List Delayed) → length (drop_dials p ds) ≤ length ds
unfolding drop_dials
length-drop_dials p [] = omega arith
length-drop_dials p (d ∷ ds) = ground (arith, length-drop_dials p ds)
