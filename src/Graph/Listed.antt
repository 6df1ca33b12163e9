-- ===== src/Graph/Listed.antt =====
-- A concrete graph with the operations and the laws of `Petgraph`, which shows that they can hold
-- together: nodes and edges are association lists by index, and a new index is above all others.
use hopr_impls.Base.{
  ℕ, suc, ◌<◌, max, ◌≡◌, ◌↔◌, refl, sym, ◌∙◌, subst, ap, Bool, true, false, ◌&&◌, Option, none,
  some, List, [], ◌∷◌, arith, Has, keep, head?, inl, inr, ◌==◌, ==_iff, Bool-cases, Option-cases,
  if_lem, if◌then◌else◌,
}
use mathlib.Core.Option
use hopr_impls.Base.Keyed.{nat_key, get, insert, remove, get-insert, get-remove}
use hopr_impls.Graph.Petgraph.{Petgraph}

abbrev pub keys : {V : Type 0} → List (ℕ × V) → List ℕ
keys [] = []
keys ((k, v) ∷ m) = k ∷ keys m

abbrev pub fresh : {V : Type 0} → List (ℕ × V) → ℕ
fresh [] = 0
fresh ((k, v) ∷ m) = max (suc k) (fresh m)

pub get-fresh : {V : Type 0} (k : ℕ) (v : V) (m : List (ℕ × V)) → get k m ≡ some v → k < fresh m
unfolding get
get-fresh k v [] h = cc
get-fresh k v ((j, u) ∷ m) h = ground (arith, get-fresh k v m, h)

pub fresh-none : {V : Type 0} (m : List (ℕ × V)) → get (fresh m) m ≡ none
fresh-none m = elim (Option-cases (get (fresh m) m)) [
  | inl e ↦ e
  | inr (v, e) ↦ ground (arith, get-fresh (fresh m) v m e)
]

pub get-keys : {V : Type 0} (k : ℕ) (v : V) (m : List (ℕ × V)) → get k m ≡ some v → Has k (keys m)
unfolding get
get-keys k v [] h = cc
get-keys k v ((j, u) ∷ m) h = elim (Bool-cases (j == k)) [
  | inl e ↦ inl (sym ((==_iff j k).0 e))
  | inr e ↦ inr (get-keys k v m (ground (arith, h, e)))
]

pub keep-Has_left : (p : ℕ → Bool) (e : ℕ) (l : List ℕ) → Has e (keep p l) → Has e l × (p e ≡ true)
unfolding keep
keep-Has_left p e [] h = elim h [ ]
keep-Has_left p e (x ∷ xs) h = elim (Bool-cases (p x)) [
  | inl c ↦ elim (subst (λ b. Has e (if b then x ∷ keep p xs else keep p xs)) c h) [
    | inl q ↦ (inl q, ap p q ∙ c)
    | inr k ↦ let (a, b) = keep-Has_left p e xs k in (inr a, b)
  ]
  | inr c ↦
      let (a, b) =
        keep-Has_left p e xs (subst (λ b. Has e (if b then x ∷ keep p xs else keep p xs)) c h) in
      (inr a, b)
]

pub keep-Has_right : (p : ℕ → Bool) (e : ℕ) (l : List ℕ) → Has e l → p e ≡ true → Has e (keep p l)
unfolding keep
keep-Has_right p e [] h k = elim h [ ]
keep-Has_right p e (x ∷ xs) (inl q) k =
    if_lem (Has e) (p x) (λ _. inl q) (λ c. ground (arith, sym (ap p q) ∙ k, c))
keep-Has_right p e (x ∷ xs) (inr h) k =
    if_lem (Has e) (p x) (λ _. inr (keep-Has_right p e xs h k)) (λ _. keep-Has_right p e xs h k)

pub head-Has : (l : List ℕ) (e : ℕ) → head? l ≡ some e → Has e l
head-Has [] e h = cc
head-Has (x ∷ xs) e h = inl (ground (arith, h))

pub Has-head : (l : List ℕ) (e : ℕ) → Has e l → (x : ℕ) × (head? l ≡ some x)
Has-head [] e h = elim h [ ]
Has-head (x ∷ xs) e h = (x, refl)

pub record Edge (W : Type 0) : Type 0 where
  pub source : ℕ
  pub target : ℕ
  pub weight : W

pub record Listed (W : Type 0) : Type 0 where
  pub nodes : List (ℕ × ℕ)
  pub edges : List (ℕ × Edge W)

abbrev pub starts : ℕ → Option (ℕ × ℕ) → Bool
starts a none = false
starts a (some (s, t)) = s == a

abbrev pub stops : ℕ → Option (ℕ × ℕ) → Bool
stops a none = false
stops a (some (s, t)) = t == a

abbrev pub joins : (a b : ℕ) → Option (ℕ × ℕ) → Bool
joins a b none = false
joins a b (some (s, t)) = (s == a) && (t == b)

abbrev pub present : Option (ℕ × ℕ) → Bool
present none = false
present (some p) = true

module _ {W : Type 0} where
  abbrev pub ends_of : Option (Edge W) → Option (ℕ × ℕ)
  ends_of none = none
  ends_of (some e) = some (e.source, e.target)

  abbrev pub weight_in : Option (Edge W) → Option W
  weight_in none = none
  weight_in (some e) = some (e.weight)

  abbrev pub ends_at : ℕ → Listed W → Option (ℕ × ℕ)
  ends_at e g = ends_of (get e g.edges)

  abbrev pub edges_where : (Option (ℕ × ℕ) → Bool) → Listed W → List ℕ
  edges_where p g = keep (λ e. p (ends_at e g)) (keys g.edges)

  pub ends_at-keys :
      (e : ℕ) (g : Listed W) (p : ℕ × ℕ) → ends_at e g ≡ some p → Has e (keys g.edges)
  ends_at-keys e g p h = elim (Option-cases (get e g.edges)) [
    | inl n ↦ ground (arith, h, n)
    | inr (x, k) ↦ get-keys e x g.edges k
  ]

  pub edges_where_iff :
      (p : Option (ℕ × ℕ) → Bool) (e : ℕ) (g : Listed W)
      → p none ≡ false
      → Has e (edges_where p g)
        ↔ ((ends : ℕ × ℕ) × (ends_at e g ≡ some ends) × (p (some ends) ≡ true))
  edges_where_iff p e g h = (
    (λ k.
        let (_, t) = keep-Has_left (λ e. p (ends_at e g)) e (keys g.edges) k in
        elim (Option-cases (ends_at e g)) [
          | inl n ↦ ground (arith, t, n, h, ap p n)
          | inr (q, n) ↦ (q, n, sym (ap p n) ∙ t)
        ]),
    (λ (ends, at, t).
        keep-Has_right (λ e. p (ends_at e g)) e (keys g.edges) (ends_at-keys e g ends at)
          (ap p at ∙ t)),
  )

  abbrev pub updated : Option (Edge W) → ℕ → (W → W) → Listed W → Listed W
  updated none e f g = g
  updated (some x) e f g = record g { edges = insert e (record x { weight = f x.weight }) g.edges }

  pub update-node :
      (o : Option (Edge W)) (e : ℕ) (f : W → W) (i : ℕ) (g : Listed W)
      → get i (updated o e f g).nodes ≡ get i g.nodes
  update-node none e f i g = refl
  update-node (some x) e f i g = refl

  pub update-get :
      (o : Option (Edge W)) (e : ℕ) (f : W → W) (e' : ℕ) (g : Listed W)
      → get e g.edges ≡ o
      → (ends_at e' (updated o e f g) ≡ ends_at e' g)
        × (weight_in (get e' (updated o e f g).edges) ≡ (
            if e == e'
            then Option.map f (weight_in (get e g.edges))
            else weight_in (get e' g.edges)))
  update-get none e f e' g h = (refl, ground (arith, h))
  update-get (some x) e f e' g h =
      let moved = get-insert e e' (record x { weight = f x.weight }) g.edges in
      (ground (arith, moved, h), ground (arith, moved, h))

  abbrev pub find : (a b : ℕ) → Listed W → Option ℕ
  find a b g = head? (edges_where (joins a b) g)

  pub found_sound : (a b e : ℕ) (g : Listed W) → find a b g ≡ some e → ends_at e g ≡ some (a, b)
  found_sound a b e g h =
      let ((s, t), at, c) =
        (edges_where_iff (joins a b) e g refl).0 (head-Has (edges_where (joins a b) g) e h) in
      ground (arith, at, c)

  pub found_complete :
      (a b e : ℕ) (g : Listed W) → ends_at e g ≡ some (a, b) → (e' : ℕ) × (find a b g ≡ some e')
  found_complete a b e g h =
      Has-head (edges_where (joins a b) g) e
        ((edges_where_iff (joins a b) e g refl).1 ((a, b), h, ground arith))

  pub weighed_complete :
      (e : ℕ) (g : Listed W) (p : ℕ × ℕ)
      → ends_at e g ≡ some p
      → (w : W) × (weight_in (get e g.edges) ≡ some w)
  weighed_complete e g p h = elim (Option-cases (get e g.edges)) [
    | inl n ↦ ground (arith, h, n)
    | inr (x, n) ↦ (x.weight, ap weight_in n)
  ]

  abbrev pub with_edge : (a b : ℕ) → W → Listed W → Listed W
  with_edge a b w g = record g {
    edges = insert (fresh g.edges) (record { source = a; target = b; weight = w }) g.edges;
  }

-- The concrete graph.
abbrev pub listed : (W : Type 0) → Petgraph W
unfolding get
listed W = record {
  G = Listed W;
  empty = record { nodes = []; edges = [] };
  node_weight = λ i g. get i g.nodes;
  edge_endpoints = ends_at;
  edge_weight = λ e g. weight_in (get e g.edges);
  find_edge = find;
  outgoing = λ a. edges_where (starts a);
  incoming = λ b. edges_where (stops b);
  edge_indices = edges_where present;
  add_node = λ k g. (fresh g.nodes, record g { nodes = insert (fresh g.nodes) k g.nodes });
  add_edge = λ a b w g. (fresh g.edges, with_edge a b w g);
  remove_edge = λ e g. record g { edges = remove e g.edges };
  update_edge = λ e f g. updated (get e g.edges) e f g;
  empty_node = λ i. refl;
  empty_edge = λ e. refl;
  find_sound = found_sound;
  find_complete = found_complete;
  weight_complete = weighed_complete;
  outgoing_iff = λ a e g. (
    (λ h.
        let ((s, t), at, c) = (edges_where_iff (starts a) e g refl).0 h in
        (t, ground (arith, at, c))),
    (λ (b, h). (edges_where_iff (starts a) e g refl).1 ((a, b), h, ground arith)),
  );
  incoming_iff = λ b e g. (
    (λ h.
        let ((s, t), at, c) = (edges_where_iff (stops b) e g refl).0 h in
        (s, ground (arith, at, c))),
    (λ (a, h). (edges_where_iff (stops b) e g refl).1 ((a, b), h, ground arith)),
  );
  indices_iff = λ e g. (
    (λ h. let (p, at, c) = (edges_where_iff present e g refl).0 h in (p, at)),
    (λ (p, h). (edges_where_iff present e g refl).1 (p, h, refl)),
  );
  add_node_new = λ k g. fresh-none g.nodes;
  add_node_weight = λ k i g. get-insert (fresh g.nodes) i k g.nodes;
  add_node_ends = λ k e g. refl;
  add_node_edge = λ k e g. refl;
  add_edge_new = λ a b w g. ap ends_of (fresh-none g.edges);
  add_edge_node = λ a b w i g. refl;
  add_edge_ends = λ a b w e g.
      ground (
        arith,
        get-insert (fresh g.edges) e (record { source = a; target = b; weight = w }) g.edges,
      );
  add_edge_weight = λ a b w e g.
      ground (
        arith,
        get-insert (fresh g.edges) e (record { source = a; target = b; weight = w }) g.edges,
      );
  remove_edge_node = λ e i g. refl;
  remove_edge_ends = λ e e' g. ground (arith, get-remove e e' g.edges);
  remove_edge_weight = λ e e' g. ground (arith, get-remove e e' g.edges);
  update_edge_node = λ e f i g. update-node (get e g.edges) e f i g;
  update_edge_ends = λ e f e' g. (update-get (get e g.edges) e f e' g refl).0;
  update_edge_weight = λ e f e' g. (update-get (get e g.edges) e f e' g refl).1;
}
