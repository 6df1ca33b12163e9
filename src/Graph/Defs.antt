-- ===== src/Graph/Defs.antt =====
-- graph/src/petgraph/graph.rs and mod.rs: the graph behind its lock, its key index and its path
-- slots. The crate `petgraph` and the bytes of a key are arguments. A `BiHashMap` is an association
-- list by key, whose insertion drops what either side had.
use hopr_impls.Base.{
  ℕ, zero, suc, ◌+◌, ◌*◌, Bool, true, false, not, Option, none, some, List, [], ◌∷◌, ◌++◌, Result,
  ok, err, if◌then◌else◌, ◌==◌, keep, any, length,
}
use hopr_impls.Base.Keyed.{nat_key, get, insert, remove}
use hopr_impls.Graph.Petgraph.{Petgraph}

pub data ChannelGraphError : Type 0 where
  public_key_node_not_found : ℕ → ChannelGraphError

-- `contains`, and `retain` of the others
abbrev pub contains : ℕ → List ℕ → Bool
contains i = any (λ held. held == i)

abbrev pub without : ℕ → List ℕ → List ℕ
without i = keep (λ held. not (held == i))

abbrev pub claim : ℕ → List ℕ → List ℕ
claim idx claimants = if contains idx claimants then claimants else claimants ++ (idx ∷ [])

abbrev pub or_empty : Option (List ℕ) → List ℕ
or_empty none = []
or_empty (some claimants) = claimants

abbrev pub is_some : {A : Type 0} → Option A → Bool
is_some none = false
is_some (some a) = true

-- The entries of other indices.
abbrev pub other_indices : ℕ → List (ℕ × ℕ) → List (ℕ × ℕ)
other_indices i = keep (λ entry. not (entry.1 == i))

abbrev pub bi_insert : ℕ → ℕ → List (ℕ × ℕ) → List (ℕ × ℕ)
bi_insert key i indices = insert key i (other_indices i indices)

-- The first bytes of a list of them, read as a big-endian number.
unfoldable pub from_be_bytes : (count : ℕ) → (acc : ℕ) → List ℕ → ℕ
from_be_bytes zero acc bytes = acc
from_be_bytes (suc count) acc [] = acc
from_be_bytes (suc count) acc (b ∷ bytes) = from_be_bytes count (acc * 256 + b) bytes

abbrev pub nonzero_slot : ℕ → ℕ
nonzero_slot slot = if slot == 0 then 1 else slot

-- `path_id::encode`, on the bytes of a key
unfoldable pub encode : (as_ref : ℕ → List ℕ) → ℕ → ℕ
encode as_ref key = nonzero_slot (from_be_bytes 8 0 (as_ref key))

abbrev pub keep_claimants : ℕ → List ℕ → List (ℕ × List ℕ) → List (ℕ × List ℕ)
keep_claimants slot [] slots = remove slot slots
keep_claimants slot (i ∷ rest) slots = insert slot (i ∷ rest) slots

abbrev pub release_from : (slot idx : ℕ) → Option (List ℕ) → List (ℕ × List ℕ) → List (ℕ × List ℕ)
release_from slot idx none slots = slots
release_from slot idx (some claimants) slots = keep_claimants slot (without idx claimants) slots

abbrev pub only_claimant : Option (List ℕ) → Option ℕ
only_claimant none = none
only_claimant (some []) = none
only_claimant (some (i ∷ [])) = some i
only_claimant (some (i ∷ j ∷ rest)) = none

module _ {W : Type 0} (pg : Petgraph W) where
  pub record InnerGraph : Type 0 where
    pub graph : pg.G
    pub indices : List (ℕ × ℕ)
    pub slots : List (ℕ × List ℕ)

module _ {W : Type 0} (pg : Petgraph W) (as_ref : ℕ → List ℕ) where
  unfoldable pub claim_slot : (key idx : ℕ) → InnerGraph pg → InnerGraph pg
  claim_slot key idx s =
      let slot = encode as_ref key in
      let claimants = or_empty (get slot s.slots) in
      record s { slots = insert slot (claim idx claimants) s.slots }

  unfoldable pub release_slot : (key idx : ℕ) → InnerGraph pg → InnerGraph pg
  release_slot key idx s =
      let slot = encode as_ref key in
      record s { slots = release_from slot idx (get slot s.slots) s.slots }

  -- `path_id::resolve`
  unfoldable pub resolve : InnerGraph pg → ℕ → Option ℕ
  resolve s slot = if slot == 0 then none else only_claimant (get slot s.slots)

  -- `ChannelGraph::with_edge_params`: the graph of the node alone
  unfoldable pub new : ℕ → InnerGraph pg
  new me =
      let (idx, graph) = pg.add_node me pg.empty in
      record { graph = graph; indices = (me, idx) ∷ []; slots = (encode as_ref me, idx ∷ []) ∷ [] }

  abbrev pub insert_node : ℕ → InnerGraph pg → ℕ × InnerGraph pg
  insert_node key s =
      let (idx, graph) = pg.add_node key s.graph in
      (idx, claim_slot key idx (record s { graph = graph; indices = bi_insert key idx s.indices }))

  abbrev pub find_or_insert : ℕ → Option ℕ → InnerGraph pg → ℕ × InnerGraph pg
  find_or_insert key (some idx) s = (idx, s)
  find_or_insert key none s = insert_node key s

  -- The index of a node, which is added if it is missing.
  unfoldable pub ensure_node : ℕ → InnerGraph pg → ℕ × InnerGraph pg
  ensure_node key s = find_or_insert key (get key s.indices) s

  unfoldable pub add_node : ℕ → InnerGraph pg → InnerGraph pg
  add_node key s = if is_some (get key s.indices) then s else (insert_node key s).1

  unfoldable pub remove_edges : List ℕ → pg.G → pg.G
  remove_edges [] g = g
  remove_edges (e ∷ rest) g = remove_edges rest (pg.remove_edge e g)

  abbrev pub remove_found : ℕ → Option ℕ → InnerGraph pg → InnerGraph pg
  remove_found key none s = s
  remove_found key (some idx) s =
      let released = release_slot key idx (record s { indices = remove key s.indices }) in
      record released {
        graph = remove_edges (pg.outgoing idx s.graph ++ pg.incoming idx s.graph) s.graph;
      }

  unfoldable pub remove_node : ℕ → InnerGraph pg → InnerGraph pg
  remove_node key s = remove_found key (get key s.indices) s

  abbrev pub add_missing_edge : W → (source target : ℕ) → Option ℕ → pg.G → ℕ × pg.G
  add_missing_edge default source target (some e) g = (e, g)
  add_missing_edge default source target none g = pg.add_edge source target default g

  abbrev pub add_edge_between :
      W
      → (src dest : ℕ) → Option ℕ
      → Option ℕ
      → InnerGraph pg
      → Result ChannelGraphError (Unit {0}) × InnerGraph pg
  add_edge_between default src dest none j s = (err (public_key_node_not_found src), s)
  add_edge_between default src dest (some i) none s = (err (public_key_node_not_found dest), s)
  add_edge_between default src dest (some i) (some j) s = (
    ok tt,
    record s { graph = (add_missing_edge default i j (pg.find_edge i j s.graph) s.graph).1 },
  )

  unfoldable pub add_edge :
      W → (src dest : ℕ) → InnerGraph pg → Result ChannelGraphError (Unit {0}) × InnerGraph pg
  add_edge default src dest s =
      add_edge_between default src dest (get src s.indices) (get dest s.indices) s

  -- `find_edge` between two registered nodes
  abbrev pub edge_between : Option ℕ → Option ℕ → pg.G → Option ℕ
  edge_between none j g = none
  edge_between (some i) none g = none
  edge_between (some i) (some j) g = pg.find_edge i j g

  abbrev pub edge_of : (src dest : ℕ) → InnerGraph pg → Option ℕ
  edge_of src dest s = edge_between (get src s.indices) (get dest s.indices) s.graph

  abbrev pub remove_edge_found : Option ℕ → InnerGraph pg → InnerGraph pg
  remove_edge_found none s = s
  remove_edge_found (some e) s = record s { graph = pg.remove_edge e s.graph }

  unfoldable pub remove_edge : (src dest : ℕ) → InnerGraph pg → InnerGraph pg
  remove_edge src dest s = remove_edge_found (edge_of src dest s) s

  unfoldable pub upsert_edge : W → (src dest : ℕ) → (W → W) → InnerGraph pg → InnerGraph pg
  upsert_edge default src dest f s =
      let (i, s1) = ensure_node src s in
      let (j, s2) = ensure_node dest s1 in
      let (e, g) = add_missing_edge default i j (pg.find_edge i j s2.graph) s2.graph in
      record s2 { graph = pg.update_edge e f g }

  unfoldable pub has_edge : (src dest : ℕ) → InnerGraph pg → Bool
  has_edge src dest s = is_some (edge_of src dest s)

  abbrev pub weight_of : Option ℕ → pg.G → Option W
  weight_of none g = none
  weight_of (some e) g = pg.edge_weight e g

  unfoldable pub edge : (src dest : ℕ) → InnerGraph pg → Option W
  edge src dest s = weight_of (edge_of src dest s) s.graph

  unfoldable pub contains_node : ℕ → InnerGraph pg → Bool
  contains_node key s = is_some (get key s.indices)

  unfoldable pub node_count : InnerGraph pg → ℕ
  node_count s = length s.indices

  unfoldable pub path_slot : ℕ → InnerGraph pg → Option ℕ
  path_slot key s = if contains_node key s then some (encode as_ref key) else none
