-- ===== src/Graph/Petgraph.antt =====
-- What graph/src/petgraph uses of the crate `petgraph`, which the repository does not contain: a
-- `StableDiGraph` whose nodes carry keys and whose edges carry weights. A key, a `NodeIndex` and an
-- `EdgeIndex` are numbers.
use hopr_impls.Base.{ℕ, ◌≡◌, ◌↔◌, Option, none, some, List, Has, if◌then◌else◌, ◌==◌}
use mathlib.Core.Option

pub record Petgraph (W : Type 0) : Type 1 where
  pub G : Type 0
  pub empty : G
  pub node_weight : ℕ → G → Option ℕ
  pub edge_endpoints : ℕ → G → Option (ℕ × ℕ)
  pub edge_weight : ℕ → G → Option W
  pub find_edge : (source target : ℕ) → G → Option ℕ
  -- `edges_directed`, and `edge_indices`
  pub outgoing : ℕ → G → List ℕ
  pub incoming : ℕ → G → List ℕ
  pub edge_indices : G → List ℕ
  pub add_node : ℕ → G → ℕ × G
  pub add_edge : (source target : ℕ) → W → G → ℕ × G
  pub remove_edge : ℕ → G → G
  -- `edge_weight_mut`
  pub update_edge : ℕ → (W → W) → G → G
  pub empty_node : (i : ℕ) → node_weight i empty ≡ none
  pub empty_edge : (e : ℕ) → edge_endpoints e empty ≡ none
  pub find_sound : (a b e : ℕ) (g : G) → find_edge a b g ≡ some e → edge_endpoints e g ≡ some (a, b)
  pub find_complete :
      (a b e : ℕ) (g : G)
      → edge_endpoints e g ≡ some (a, b)
      → (e' : ℕ) × (find_edge a b g ≡ some e')
  pub weight_complete :
      (e : ℕ) (g : G) (ends : ℕ × ℕ)
      → edge_endpoints e g ≡ some ends
      → (w : W) × (edge_weight e g ≡ some w)
  pub outgoing_iff :
      (a e : ℕ) (g : G) → Has e (outgoing a g) ↔ ((b : ℕ) × (edge_endpoints e g ≡ some (a, b)))
  pub incoming_iff :
      (b e : ℕ) (g : G) → Has e (incoming b g) ↔ ((a : ℕ) × (edge_endpoints e g ≡ some (a, b)))
  pub indices_iff :
      (e : ℕ) (g : G) → Has e (edge_indices g) ↔ ((ends : ℕ × ℕ) × (edge_endpoints e g ≡ some ends))
  -- A new node takes an index that no node of the graph has, and so does a new edge.
  pub add_node_new : (k : ℕ) (g : G) → node_weight (add_node k g).0 g ≡ none
  pub add_node_weight :
      (k i : ℕ) (g : G)
      → node_weight i (add_node k g).1 ≡ (if (add_node k g).0 == i then some k else node_weight i g)
  pub add_node_ends : (k e : ℕ) (g : G) → edge_endpoints e (add_node k g).1 ≡ edge_endpoints e g
  pub add_node_edge : (k e : ℕ) (g : G) → edge_weight e (add_node k g).1 ≡ edge_weight e g
  pub add_edge_new : (a b : ℕ) (w : W) (g : G) → edge_endpoints (add_edge a b w g).0 g ≡ none
  pub add_edge_node :
      (a b : ℕ) (w : W) (i : ℕ) (g : G) → node_weight i (add_edge a b w g).1 ≡ node_weight i g
  pub add_edge_ends :
      (a b : ℕ) (w : W) (e : ℕ) (g : G)
      → edge_endpoints e (add_edge a b w g).1
        ≡ (if (add_edge a b w g).0 == e then some (a, b) else edge_endpoints e g)
  pub add_edge_weight :
      (a b : ℕ) (w : W) (e : ℕ) (g : G)
      → edge_weight e (add_edge a b w g).1
        ≡ (if (add_edge a b w g).0 == e then some w else edge_weight e g)
  pub remove_edge_node : (e i : ℕ) (g : G) → node_weight i (remove_edge e g) ≡ node_weight i g
  pub remove_edge_ends :
      (e e' : ℕ) (g : G)
      → edge_endpoints e' (remove_edge e g) ≡ (if e == e' then none else edge_endpoints e' g)
  pub remove_edge_weight :
      (e e' : ℕ) (g : G)
      → edge_weight e' (remove_edge e g) ≡ (if e == e' then none else edge_weight e' g)
  pub update_edge_node :
      (e : ℕ) (f : W → W) (i : ℕ) (g : G) → node_weight i (update_edge e f g) ≡ node_weight i g
  pub update_edge_ends :
      (e : ℕ) (f : W → W) (e' : ℕ) (g : G)
      → edge_endpoints e' (update_edge e f g) ≡ edge_endpoints e' g
  pub update_edge_weight :
      (e : ℕ) (f : W → W) (e' : ℕ) (g : G)
      → edge_weight e' (update_edge e f g)
        ≡ (if e == e' then Option.map f (edge_weight e g) else edge_weight e' g)
