-- ===== src/Graph/Walks.antt =====
-- Walks along the slots of a path.
use hopr_impls.Base.{
  ℕ, suc, ◌≤◌, ◌≡◌, refl, sym, subst, ap, Option, none, some, List, [], ◌∷◌, ◌++◌, arith, if_lem,
  ◌==◌, ==_iff, length,
}
use hopr_impls.Base.Keyed.{nat_key, get}
use hopr_impls.Graph.Petgraph.{Petgraph}
use hopr_impls.Graph.Defs.{InnerGraph, encode, resolve, edge_between}
use hopr_impls.Graph.Indexed.{IsIndexed}
use hopr_impls.Graph.Slots.{resolve_sound}
use hopr_impls.Graph.Paths.{up_to, prepend, extend, hop, walk}

abbrev pub last_of : ℕ → List ℕ → ℕ
last_of d [] = d
last_of d (x ∷ xs) = last_of x xs

pub last_of-append : (d : ℕ) (xs ys : List ℕ) → last_of d (xs ++ ys) ≡ last_of (last_of d xs) ys
last_of-append d [] ys = refl
last_of-append d (x ∷ xs) ys = last_of-append x xs ys

-- The slots up to an occurrence end with it, there is at least one, and the others follow.
abbrev pub IsUpTo : ℕ → ℕ → List ℕ → Option (List ℕ × List ℕ) → Type 0
IsUpTo v d xs none = Unit
IsUpTo v d xs (some (p, q)) = (last_of d p ≡ v) × (1 ≤ length p) × (xs ≡ p ++ q)

prepend-IsUpTo :
    (v d x : ℕ) (xs : List ℕ) (found : Option (List ℕ × List ℕ))
    → IsUpTo v x xs found
    → IsUpTo v d (x ∷ xs) (prepend x found)
prepend-IsUpTo v d x xs none w = tt
prepend-IsUpTo v d x xs (some (p, q)) (l, n, e) = (l, omega arith, ap (λ ys. x ∷ ys) e)

pub up_to-IsUpTo : (v d : ℕ) (xs : List ℕ) → IsUpTo v d xs (up_to v xs)
unfolding up_to
up_to-IsUpTo v d [] = tt
up_to-IsUpTo v d (x ∷ xs) =
    if_lem (IsUpTo v d (x ∷ xs)) (x == v) (λ e. ((==_iff x v).0 e, omega arith, refl))
      (λ _. prepend-IsUpTo v d x xs (up_to v xs) (up_to-IsUpTo v x xs))

module _ {W : Type 0} (pg : Petgraph W) (as_ref : ℕ → List ℕ) where
  -- The edges lead from one node to another.
  abbrev pub IsChain : pg.G → ℕ → List ℕ → ℕ → Type 0
  IsChain g i [] j = i ≡ j
  IsChain g i (e ∷ es) j = (k : ℕ) × (pg.edge_endpoints e g ≡ some (i, k)) × IsChain g k es j

  hop_lem :
      (s : InnerGraph pg) (a b : Option ℕ) (i e : ℕ)
      → a ≡ some i
      → edge_between pg as_ref a b s.graph ≡ some e
      → (j : ℕ) × (b ≡ some j) × (pg.edge_endpoints e s.graph ≡ some (i, j))
  hop_lem s none b i e h k = ground (arith, h)
  hop_lem s (some i') none i e h k = ground (arith, k)
  hop_lem s (some i') (some j) i e h k =
      (j, refl, ground (arith, pg.find_sound i' j e s.graph k, h))

  pub extend_lem :
      (e : Option ℕ) (es : Option (List ℕ)) (l : List ℕ)
      → extend e es ≡ some l
      → (x : ℕ) × (xs : List ℕ) × (e ≡ some x) × (es ≡ some xs) × (l ≡ x ∷ xs)
  extend_lem none es l h = ground (arith, h)
  extend_lem (some x) none l h = ground (arith, h)
  extend_lem (some x) (some xs) l h = (x, xs, refl, refl, ground (arith, h))

  pub walk_lem :
      (s : InnerGraph pg) (from i : ℕ) (rest es : List ℕ)
      → walk pg as_ref s from rest ≡ some es
      → resolve pg as_ref s from ≡ some i
      → (length es ≡ length rest)
        × ((j : ℕ) × (resolve pg as_ref s (last_of from rest) ≡ some j) × IsChain s.graph i es j)
  unfolding walk
  walk_lem s from i [] es h k =
      let none_left : es ≡ [] = ground (arith, h) in
      subst
        (λ l.
          (length l ≡ 0) × ((j : ℕ) × (resolve pg as_ref s from ≡ some j) × IsChain s.graph i l j))
        (sym none_left) (refl, (i, k, refl))
  walk_lem s from i (to ∷ rest) es h k =
      let (e, es', at, more, whole) =
        extend_lem (hop pg as_ref s from to) (walk pg as_ref s to rest) es h in
      let (j, to_j, ends) =
        hop_lem s (resolve pg as_ref s from) (resolve pg as_ref s to) i e k at in
      let (len, (m, last, chain)) = walk_lem s to j rest es' more to_j in
      subst
        (λ l.
          (length l ≡ suc (length rest))
          × ((j' : ℕ) × (resolve pg as_ref s (last_of to rest) ≡ some j') × IsChain s.graph i l j'))
        (sym whole) (omega (arith, len), (m, last, (j, ends, chain)))

  -- The node itself has its own slot alone, so what its slot resolves to is its index.
  pub own_index :
      (s : InnerGraph pg) (me m i : ℕ)
      → IsIndexed pg as_ref s
      → get me s.indices ≡ some m
      → resolve pg as_ref s (encode as_ref me) ≡ some i
      → i ≡ m
  own_index s me m i w at h =
      let (k, at', (e, only)) = resolve_sound pg as_ref s (encode as_ref me) i w h in
      ground (arith, at, at', only me m at refl)

  pub hop_from :
      (a b : Option ℕ) (e : ℕ) (g : pg.G)
      → edge_between pg as_ref a b g ≡ some e
      → (i : ℕ) × (a ≡ some i)
  hop_from none b e g h = ground (arith, h)
  hop_from (some i) b e g h = (i, refl)
