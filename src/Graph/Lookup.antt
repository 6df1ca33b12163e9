-- ===== src/Graph/Lookup.antt =====
-- The weight of the edge between two nodes, after each change of the graph.
use hopr_impls.Base.{
  ℕ, ◌≡◌, ◌≢◌, sym, ◌∙◌, ap, Bool, true, false, ◌&&◌, Option, none, some, List, arith, inl, inr,
  ◌⊎◌, ◌==◌, Bool-cases, Option-cases, if◌then◌else◌,
}
use mathlib.Core.Option
use hopr_impls.Graph.Petgraph.{Petgraph}
use hopr_impls.Graph.Defs.{weight_of}
use hopr_impls.Graph.Joined.{IsSimple}

-- The two nodes are those of a pair.
abbrev pub same_ends : (a b i j : ℕ) → Bool
same_ends a b i j = (a == i) && (b == j)

pub same_ends_lem : (a b i j : ℕ) → same_ends a b i j ≡ true → (a ≡ i) × (b ≡ j)
same_ends_lem a b i j h = (ground (arith, h), ground (arith, h))

pub other_ends_lem : (a b i j : ℕ) → same_ends a b i j ≡ false → ◌≢◌ {A = ℕ × ℕ} (a, b) (i, j)
other_ends_lem a b i j h e = ground (arith, h, e)

module _ {W : Type 0} (pg : Petgraph W) (as_ref : ℕ → List ℕ) where
  abbrev pub lookup : (a b : ℕ) → pg.G → Option W
  lookup a b g = weight_of pg as_ref (pg.find_edge a b g) g

  pub lookup-some :
      (a b e : ℕ) (g : pg.G)
      → IsSimple pg as_ref g
      → pg.edge_endpoints e g ≡ some (a, b)
      → lookup a b g ≡ pg.edge_weight e g
  lookup-some a b e g w h =
      let (e', found) = pg.find_complete a b e g h in
      let same : e' ≡ e = w e' e (a, b) (pg.find_sound a b e' g found) h in
      ap (λ o. weight_of pg as_ref o g) (found ∙ ap some same)

  pub lookup-none :
      (a b : ℕ) (g : pg.G) → ((e : ℕ) → pg.edge_endpoints e g ≢ some (a, b)) → lookup a b g ≡ none
  lookup-none a b g h = elim (Option-cases (pg.find_edge a b g)) [
    | inl e ↦ ap (λ o. weight_of pg as_ref o g) e
    | inr (x, e) ↦ elim (h x (pg.find_sound a b x g e)) [ ]
  ]

  pub find_cases :
      (a b : ℕ) (g : pg.G)
      → ((e : ℕ) × (pg.edge_endpoints e g ≡ some (a, b)))
        ⊎ ((e : ℕ) → pg.edge_endpoints e g ≢ some (a, b))
  find_cases a b g = elim (Option-cases (pg.find_edge a b g)) [
    | inl n ↦ inr (λ e h. let (x, f) = pg.find_complete a b e g h in ground (arith, f, n))
    | inr (x, e) ↦ inl (x, pg.find_sound a b x g e)
  ]

  -- A change that keeps the edge between two nodes keeps what is looked up.
  pub lookup_frame :
      (a b : ℕ) (g g' : pg.G)
      → IsSimple pg as_ref g
      → IsSimple pg as_ref g'
      → ((e : ℕ)
          → pg.edge_endpoints e g ≡ some (a, b)
          → (pg.edge_endpoints e g' ≡ some (a, b)) × (pg.edge_weight e g' ≡ pg.edge_weight e g))
      → ((e : ℕ) → pg.edge_endpoints e g' ≡ some (a, b) → pg.edge_endpoints e g ≡ some (a, b))
      → lookup a b g' ≡ lookup a b g
  lookup_frame a b g g' w w' kept old = elim (find_cases a b g) [
    | inl (e, h) ↦
        let (h', same) = kept e h in
        lookup-some a b e g' w' h' ∙ same ∙ sym (lookup-some a b e g w h)
    | inr n ↦ lookup-none a b g' (λ e h. n e (old e h)) ∙ sym (lookup-none a b g n)
  ]

  pub lookup-update :
      (a b i j e : ℕ) (f : W → W) (g : pg.G)
      → IsSimple pg as_ref g
      → IsSimple pg as_ref (pg.update_edge e f g)
      → pg.edge_endpoints e g ≡ some (i, j)
      → lookup a b (pg.update_edge e f g)
        ≡ (if same_ends a b i j then Option.map f (lookup i j g) else lookup a b g)
  lookup-update a b i j e f g w w' h = elim (Bool-cases (same_ends a b i j)) [
    | inl c ↦
        let (p, q) = same_ends_lem a b i j c in
        let at : pg.edge_endpoints e g ≡ some (a, b) = ground (arith, h, p, q) in
        let after : lookup a b (pg.update_edge e f g) ≡ Option.map f (lookup i j g) =
          lookup-some a b e (pg.update_edge e f g) w' (pg.update_edge_ends e f e g ∙ at)
          ∙ (pg.update_edge_weight e f e g ∙ ground arith)
          ∙ ap (Option.map f) (sym (lookup-some i j e g w h)) in
        rw c after
    | inr c ↦
        let n = other_ends_lem a b i j c in
        let after : lookup a b (pg.update_edge e f g) ≡ lookup a b g =
          lookup_frame a b g (pg.update_edge e f g) w w'
            (λ x l. (
              pg.update_edge_ends e f x g ∙ l,
              ground (arith, pg.update_edge_weight e f x g, l, h, n),
            ))
            (λ x l. sym (pg.update_edge_ends e f x g) ∙ l) in
        rw c after
  ]
