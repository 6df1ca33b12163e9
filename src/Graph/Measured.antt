-- ===== src/Graph/Measured.antt =====
-- What a measurement changes.
use hopr_impls.Base.{
  ℕ, zero, suc, ◌*◌, ◌%◌, ◌^◌, ◌≡◌, refl, ◌∙◌, ap, Option, none, some, List, [], ◌∷◌, ok, err,
  arith, ◌⊎◌, inl, inr, ◌==◌, ltb, Bool-cases, if◌then◌else◌, if_lem,
}
use mathlib.Core.Option
use hopr_impls.Base.Keyed.{nat_key, get}
use hopr_impls.Graph.Petgraph.{Petgraph}
use hopr_impls.Graph.Defs.{is_some}
use hopr_impls.Graph.Paths.{resolve_loopback_edges}
use hopr_impls.Graph.RecordEdge.{
  EdgeWeightType, intermediate, Observations, loopback_ok, loopback_timeout, ChannelGraph,
  checked_sub, target_of, record_on, record_all, known_latency, attributed_duration, record_latency,
  attribute, attribute_elapsed, record_loopback, record_timeout_on, record_timeout, record_edge,
}

-- A function applied some number of times.
unfoldable pub repeat : {A : Type 0} → ℕ → (A → A) → A → A
repeat zero f a = a
repeat (suc n) f a = repeat n f (f a)

-- How often an edge is among some edges.
unfoldable pub occurrences : ℕ → List ℕ → ℕ
occurrences e [] = 0
occurrences e (x ∷ xs) = if x == e then suc (occurrences e xs) else occurrences e xs

map-repeat :
    {A : Type 0} (n : ℕ) (f : A → A) (o : Option A)
    → Option.map (repeat n f) (Option.map f o) ≡ Option.map (repeat (suc n) f) o
unfolding repeat
map-repeat n f none = refl
map-repeat n f (some a) = refl

map_zero : {A : Type 0} (f : A → A) (o : Option A) → o ≡ Option.map (repeat 0 f) o
unfolding repeat
map_zero f none = refl
map_zero f (some a) = refl

module _ {W : Type 0} (pg : Petgraph W) (as_ref : ℕ → List ℕ) (path_len : ℕ)
    (obs : Observations W) where
  -- Each edge of a round trip gets the record as often as the round trip traverses it, and no other
  -- edge gets it.
  pub record_all-weight :
      (e : ℕ) (es : List ℕ) (m : EdgeWeightType) (g : pg.G)
      → pg.edge_weight e (record_all pg as_ref path_len obs es m g)
        ≡ Option.map (repeat (occurrences e es) (obs.record_measurement m)) (pg.edge_weight e g)
  unfolding record_all repeat occurrences
  record_all-weight e [] m g = map_zero (obs.record_measurement m) (pg.edge_weight e g)
  record_all-weight e (x ∷ xs) m g =
      let f = obs.record_measurement m in
      let next = record_all-weight e xs m (pg.update_edge x f g) in
      let n = occurrences e xs in
      elim (Bool-cases (x == e)) [
        | inl c ↦
            let at : pg.edge_weight e (pg.update_edge x f g) ≡ Option.map f (pg.edge_weight e g) =
              ground (arith, pg.update_edge_weight x f e g, c) in
            let whole : pg.edge_weight e
                  (record_all pg as_ref path_len obs xs m (pg.update_edge x f g))
                ≡ Option.map (repeat (suc n) f) (pg.edge_weight e g) =
              next ∙ ap (Option.map (repeat n f)) at ∙ map-repeat n f (pg.edge_weight e g) in
            rw c whole
        | inr c ↦
            let at : pg.edge_weight e (pg.update_edge x f g) ≡ pg.edge_weight e g =
              ground (arith, pg.update_edge_weight x f e g, c) in
            let whole : pg.edge_weight e
                  (record_all pg as_ref path_len obs xs m (pg.update_edge x f g))
                ≡ Option.map (repeat n f) (pg.edge_weight e g) =
              next ∙ ap (Option.map (repeat n f)) at in
            rw c whole
      ]

  -- The weight of an edge is as it was, or the edge is the given one.
  abbrev pub Kept : pg.G → pg.G → Option ℕ → Type 0
  Kept g g' target = (e : ℕ) → (pg.edge_weight e g' ≡ pg.edge_weight e g) ⊎ (target ≡ some e)

  record_on-Kept :
      (t : ℕ) (m : EdgeWeightType) (g : pg.G)
      → Kept g (record_on pg as_ref path_len obs t m g) (some t)
  record_on-Kept t m g e = elim (Bool-cases (t == e)) [
    | inl c ↦ inr (ground (arith, c))
    | inr c ↦ inl (ground (arith, pg.update_edge_weight t (obs.record_measurement m) e g, c))
  ]

  record_latency-Kept :
      (t : ℕ) (d : Option ℕ) (g : pg.G)
      → Kept g (record_latency pg as_ref path_len obs t d g) (some t)
  record_latency-Kept t none g = λ e. inl refl
  record_latency-Kept t (some d) g = record_on-Kept t (intermediate (ok d)) g

  attribute-Kept :
      (total : ℕ) (es : List ℕ) (t : Option ℕ) (g : pg.G)
      → Kept g (attribute pg as_ref path_len obs total es t g) t
  attribute-Kept total es none g = λ e. inl refl
  attribute-Kept total es (some t) g =
      record_latency-Kept t
        (attributed_duration pg as_ref path_len obs total
          (known_latency pg as_ref path_len obs es g) (pg.edge_weight t g))
        g

  elapsed-Kept :
      (max : ℕ) (es : List ℕ) (elapsed : Option ℕ) (g : pg.G)
      → Kept g (attribute_elapsed pg as_ref path_len obs max es elapsed g) (target_of es)
  elapsed-Kept max es none g = λ e. inl refl
  elapsed-Kept max es (some ms) g =
      let total = 1000000 * (ms % 2 ^ 64) in
      if_lem (λ g'. Kept g g' (target_of es)) (ltb max total) (λ _. λ e. inl refl)
        (λ _. attribute-Kept total es (target_of es) g)

  timeout-Kept : (t : Option ℕ) (g : pg.G) → Kept g (record_timeout_on pg as_ref path_len obs t g) t
  timeout-Kept none g = λ e. inl refl
  timeout-Kept (some t) g = record_on-Kept t (intermediate (err tt)) g

  -- The weights of two graphs differ at most at the target of the edges.
  abbrev pub KeptBut : pg.G → pg.G → Option (List ℕ) → Type 0
  KeptBut g g' none = (e : ℕ) → pg.edge_weight e g' ≡ pg.edge_weight e g
  KeptBut g g' (some es) = Kept g g' (target_of es)

  loopback-Kept :
      (max now ts : ℕ) (es : Option (List ℕ)) (g : pg.G)
      → KeptBut g (record_loopback pg as_ref path_len obs max now ts es g) es
  loopback-Kept max now ts none g = λ e. refl
  loopback-Kept max now ts (some es) g = elapsed-Kept max es (checked_sub now ts) g

  loopback_timeout-Kept :
      (es : Option (List ℕ)) (g : pg.G) → KeptBut g (record_timeout pg as_ref path_len obs es g) es
  loopback_timeout-Kept none g = λ e. refl
  loopback_timeout-Kept (some es) g = timeout-Kept (target_of es) g

  unchanged-Kept : (g : pg.G) (es : Option (List ℕ)) → KeptBut g g es
  unchanged-Kept g none = λ e. refl
  unchanged-Kept g (some es) = λ e. inl refl

  -- A loopback probe, whether it came back or timed out, changes no edge but the last but one of
  -- the edges that its path resolves to, and none if its path does not resolve.
  pub loopback_frame :
      (now timestamp : ℕ) (path : List ℕ) (s : ChannelGraph pg)
      → let es = resolve_loopback_edges pg as_ref path_len s.inner s.me path in
        KeptBut s.inner.graph
          (record_edge pg as_ref path_len obs now (loopback_ok timestamp path) s).inner.graph
          es
        × KeptBut s.inner.graph
            (record_edge pg as_ref path_len obs now (loopback_timeout path) s).inner.graph
            es
  unfolding record_edge
  loopback_frame now timestamp path s =
      let es = resolve_loopback_edges pg as_ref path_len s.inner s.me path in
      let g = s.inner.graph in
      let present = is_some (get s.me s.inner.indices) in
      (
        if_lem (λ (x : ChannelGraph pg). KeptBut g x.inner.graph es) present
            (λ _. loopback-Kept s.max_plausible_loopback_rtt now timestamp es g)
            (λ _. unchanged-Kept g es),
        if_lem (λ (x : ChannelGraph pg). KeptBut g x.inner.graph es) present
            (λ _. loopback_timeout-Kept es g) (λ _. unchanged-Kept g es),
      )
