-- ===== src/Graph/Claims.antt =====
-- The claimants of a slot: lists of indices without repetition, and what a claim and a release do.
use hopr_impls.Base.{
  ℕ, ◌≡◌, ◌≢◌, refl, sym, ◌∙◌, subst, ap, true, false, not, Option, none, some, List, [], ◌∷◌, ◌++◌,
  arith, Nowhere, Has, keep, any, if_lem, inl, inr, ◌⊎◌, ◌==◌, ==_iff, Bool-cases, if◌then◌else◌,
}
use hopr_impls.Base.Keyed.{nat_key, get, get-insert, get-remove, Distinct}
use hopr_impls.Graph.Petgraph.{Petgraph}
use hopr_impls.Graph.Defs.{
  InnerGraph, contains, claim, without, or_empty, other_indices, encode, claim_slot, release_slot,
  keep_claimants, release_from,
}

abbrev pub IsDistinct : List ℕ → Type 0
IsDistinct [] = Unit
IsDistinct (x ∷ xs) = (Has x xs → Nowhere {0}) × IsDistinct xs

pub contains-Has : (i : ℕ) (l : List ℕ) → contains i l ≡ true → Has i l
unfolding any
contains-Has i [] h = cc
contains-Has i (x ∷ xs) h = elim (Bool-cases (x == i)) [
  | inl e ↦ inl (sym ((==_iff x i).0 e))
  | inr e ↦ inr (contains-Has i xs (ground (arith, h, e)))
]

pub Has-contains : (i : ℕ) (l : List ℕ) → Has i l → contains i l ≡ true
unfolding any
Has-contains i [] h = elim h [ ]
Has-contains i (x ∷ xs) (inl e) = ground (arith, e)
Has-contains i (x ∷ xs) (inr h) = ground (arith, Has-contains i xs h)

pub Has-append : (i : ℕ) (xs ys : List ℕ) → Has i (xs ++ ys) → Has i xs ⊎ Has i ys
Has-append i [] ys h = inr h
Has-append i (x ∷ xs) ys (inl e) = inl (inl e)
Has-append i (x ∷ xs) ys (inr h) = elim (Has-append i xs ys h) [
  | inl k ↦ inl (inr k)
  | inr k ↦ inr k
]

-- A member of the list without an index is a member that is not the index.
pub without-Has : (i j : ℕ) (l : List ℕ) → Has j (without i l) → (j ≢ i) × Has j l
unfolding keep
without-Has i j [] h = elim h [ ]
without-Has i j (x ∷ xs) h = elim (Bool-cases (x == i)) [
  | inl e ↦
      let (n, k) =
        without-Has i j xs
          (subst (λ b. Has j (if not b then x ∷ without i xs else without i xs)) e h) in
      (n, inr k)
  | inr e ↦ elim (subst (λ b. Has j (if not b then x ∷ without i xs else without i xs)) e h) [
    | inl q ↦ ((λ r. ground (arith, q, r, e)), inl q)
    | inr k ↦ let (n, k') = without-Has i j xs k in (n, inr k')
  ]
]

pub Has-without : (i j : ℕ) (l : List ℕ) → j ≢ i → Has j l → Has j (without i l)
unfolding keep
Has-without i j [] n h = elim h [ ]
Has-without i j (x ∷ xs) n (inl q) =
    if_lem (Has j) (not (x == i)) (λ _. inl q) (λ e. ground (arith, n, q, e))
Has-without i j (x ∷ xs) n (inr h) =
    if_lem (Has j) (not (x == i)) (λ _. inr (Has-without i j xs n h)) (λ _. Has-without i j xs n h)

pub without-IsDistinct : (i : ℕ) (l : List ℕ) → IsDistinct l → IsDistinct (without i l)
unfolding keep
without-IsDistinct i [] d = tt
without-IsDistinct i (x ∷ xs) d =
    if_lem IsDistinct (not (x == i))
      (λ _. ((λ h. d.0 (without-Has i x xs h).1), without-IsDistinct i xs d.1))
      (λ _. without-IsDistinct i xs d.1)

pub append-IsDistinct :
    (i : ℕ) (l : List ℕ) → contains i l ≡ false → IsDistinct l → IsDistinct (l ++ (i ∷ []))
unfolding any
append-IsDistinct i [] h d = ((λ k. elim k [ ]), tt)
append-IsDistinct i (x ∷ xs) h d = (
  (λ k. elim (Has-append x xs (i ∷ []) k) [
    | inl k' ↦ d.0 k'
    | inr (inl e) ↦ ground (arith, h, e)
    | inr (inr k') ↦ k'
  ]),
  append-IsDistinct i xs (ground (arith, h)) d.1,
)

-- A list without repetition whose members are all one index is that index alone.
pub only_lem :
    (i : ℕ) (l : List ℕ) → IsDistinct l → Has i l → ((j : ℕ) → Has j l → j ≡ i) → l ≡ i ∷ []
only_lem i [] d h all = elim h [ ]
only_lem i (x ∷ []) d h all = ap (λ y. y ∷ []) (all x (inl refl))
only_lem i (x ∷ y ∷ l) d h all =
    elim (d.0 (inl (all x (inl refl) ∙ sym (all y (inr (inl refl)))))) [ ]

-- If no key has the index, then no entry is dropped for it.
pub other_indices-fresh :
    (i : ℕ) (m : List (ℕ × ℕ)) → Distinct m → ((k : ℕ) → get k m ≢ some i) → other_indices i m ≡ m
unfolding keep get
other_indices-fresh i [] d h = refl
other_indices-fresh i ((k, v) ∷ m) d h =
    let rest : other_indices i m ≡ m =
      other_indices-fresh i m d.1 (λ j e. ground (arith, h j, d.0, e)) in
    ground (arith, h k, rest)

keep_claimants_lem :
    (slot t : ℕ) (l : List ℕ) (slots : List (ℕ × List ℕ))
    → or_empty (get t (keep_claimants slot l slots))
      ≡ (if slot == t then l else or_empty (get t slots))
keep_claimants_lem slot t [] slots = ground (arith, get-remove slot t slots)
keep_claimants_lem slot t (i ∷ rest) slots = ground (arith, get-insert slot t (i ∷ rest) slots)

release_from_lem :
    (slot idx t : ℕ) (held : Option (List ℕ)) (slots : List (ℕ × List ℕ))
    → get slot slots ≡ held
    → or_empty (get t (release_from slot idx held slots))
      ≡ (if slot == t then without idx (or_empty (get t slots)) else or_empty (get t slots))
unfolding keep
release_from_lem slot idx t none slots h = ground (arith, h)
release_from_lem slot idx t (some l) slots h =
    ground (arith, h, keep_claimants_lem slot t (without idx l) slots)

module _ {W : Type 0} (pg : Petgraph W) (as_ref : ℕ → List ℕ) where
  abbrev pub claimants : ℕ → InnerGraph pg → List ℕ
  claimants slot s = or_empty (get slot s.slots)

  pub claim_slot-claimants :
      (key idx t : ℕ) (s : InnerGraph pg)
      → claimants t (claim_slot pg as_ref key idx s)
        ≡ (if encode as_ref key == t then claim idx (claimants t s) else claimants t s)
  unfolding claim_slot
  claim_slot-claimants key idx t s = ground (
    arith,
    get-insert (encode as_ref key) t (claim idx (claimants (encode as_ref key) s)) s.slots,
  )

  pub release_slot-claimants :
      (key idx t : ℕ) (s : InnerGraph pg)
      → claimants t (release_slot pg as_ref key idx s)
        ≡ (if encode as_ref key == t then without idx (claimants t s) else claimants t s)
  unfolding release_slot
  release_slot-claimants key idx t s =
      release_from_lem (encode as_ref key) idx t (get (encode as_ref key) s.slots) s.slots refl
