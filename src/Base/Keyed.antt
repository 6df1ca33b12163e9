-- ===== src/Base/Keyed.antt =====
-- Maps as association lists. The concurrent and the hashed maps of the program (`DashMap`,
-- `HashMap`) are read through lookups alone, so the order of the entries stands for any order.
use Prim.Native.Nat.{ℕ}
use mathlib.Core.Path.{◌≡◌, refl}
use mathlib.Core.Logic.{◌↔◌}
use mathlib.Core.Bool.{Bool, true, ◌&&◌}
use mathlib.Core.Option.{Option, none, some}
use mathlib.Core.List.{List, [], ◌∷◌}
use native.Mathlib.Omega.{arith}
use hopr_impls.Base.Tests.{◌==◌, ==_iff, if◌then◌else◌}

-- A key with a decidable equality.
pub record Key {ℓ} (K : Type ℓ) : Type ℓ where
  pub same : K → K → Bool
  pub same_iff : (a b : K) → (same a b ≡ true) ↔ (a ≡ b)

instance abbrev pub nat_key : Key ℕ
nat_key = record { same = ◌==◌; same_iff = ==_iff }

abbrev pub same_pair : ℕ × ℕ → ℕ × ℕ → Bool
same_pair a b = (a.0 == b.0) && (a.1 == b.1)

pub same_pair_iff : (a b : ℕ × ℕ) → (same_pair a b ≡ true) ↔ (a ≡ b)
same_pair_iff a b = ground arith

instance abbrev pub pair_key : Key (ℕ × ℕ)
pair_key = record { same = same_pair; same_iff = same_pair_iff }

module _ {ℓ κ} {K : Type ℓ} {V : Type κ} ⦃e : Key K⦄ where
  unfoldable pub get : K → List (K × V) → Option V
  get k [] = none
  get k ((j, v) ∷ m) = if e.same j k then some v else get k m

  unfoldable pub remove : K → List (K × V) → List (K × V)
  remove k [] = []
  remove k ((j, v) ∷ m) = if e.same j k then remove k m else (j, v) ∷ remove k m

  unfoldable pub insert : K → V → List (K × V) → List (K × V)
  unfolding remove
  insert k v m = (k, v) ∷ remove k m

  pub get-remove :
      (k j : K) (m : List (K × V)) → get j (remove k m) ≡ (if e.same k j then none else get j m)
  unfolding get remove
  get-remove k j [] = ground arith
  get-remove k j ((i, v) ∷ m) =
      ground (arith, get-remove k j m, e.same_iff i k, e.same_iff i j, e.same_iff k j)

  pub get-insert :
      (k j : K) (v : V) (m : List (K × V))
      → get j (insert k v m) ≡ (if e.same k j then some v else get j m)
  unfolding insert get
  get-insert k j v m = ground (arith, get-remove k j m)

  -- No key has two entries.
  abbrev pub Distinct : List (K × V) → Type κ
  Distinct [] = Unit
  Distinct ((k, v) ∷ m) = (get k m ≡ none) × Distinct m

  pub remove-Distinct : (k : K) (m : List (K × V)) → Distinct m → Distinct (remove k m)
  unfolding remove
  remove-Distinct k [] d = tt
  remove-Distinct k ((j, v) ∷ m) d =
      ground (arith, remove-Distinct k m d.1, get-remove k j m, e.same_iff j k, e.same_iff k j)

  pub insert-Distinct : (k : K) (v : V) (m : List (K × V)) → Distinct m → Distinct (insert k v m)
  unfolding insert
  insert-Distinct k v m d = (rw (get-remove k k m, (e.same_iff k k).1 refl), remove-Distinct k m d)
