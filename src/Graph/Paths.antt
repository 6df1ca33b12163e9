-- ===== src/Graph/Paths.antt =====
-- graph/src/petgraph/update.rs: the edges that a loopback probe and a SURB round trip traversed. A
-- `PathId` is a list of slots; how many it has is an argument, `path_len`.
use hopr_impls.Base.{
  ℕ, zero, suc, ◌+◌, ◌*◌, not, ◌||◌, Option, none, some, List, [], ◌∷◌, ◌++◌, if◌then◌else◌, ◌==◌,
  ltb, any, length,
}
use hopr_impls.Graph.Petgraph.{Petgraph}
use hopr_impls.Graph.Defs.{InnerGraph, encode, resolve, edge_between}

unfoldable pub take : ℕ → List ℕ → List ℕ
take zero xs = []
take (suc n) [] = []
take (suc n) (x ∷ xs) = x ∷ take n xs

unfoldable pub drop : ℕ → List ℕ → List ℕ
drop zero xs = xs
drop (suc n) [] = []
drop (suc n) (x ∷ xs) = drop n xs

unfoldable pub from_le_bytes : List ℕ → ℕ
from_le_bytes [] = 0
from_le_bytes (b ∷ bytes) = b + 256 * from_le_bytes bytes

-- The slots of a path, from chunks of eight bytes.
unfoldable pub slots_of : (count : ℕ) → List ℕ → List ℕ
slots_of zero bytes = []
slots_of (suc n) bytes = from_le_bytes (take 8 bytes) ∷ slots_of n (drop 8 bytes)

abbrev pub prepend : ℕ → Option (List ℕ × List ℕ) → Option (List ℕ × List ℕ)
prepend x none = none
prepend x (some (before, after)) = some (x ∷ before, after)

-- The slots up to the first occurrence of one, which is included, and those after it.
unfoldable pub up_to : ℕ → List ℕ → Option (List ℕ × List ℕ)
up_to v [] = none
up_to v (x ∷ xs) = let found = up_to v xs in if x == v then some (x ∷ [], xs) else prepend x found

abbrev pub extend : Option ℕ → Option (List ℕ) → Option (List ℕ)
extend none es = none
extend (some e) none = none
extend (some e) (some es) = some (e ∷ es)

abbrev pub nonempty : Option (List ℕ) → Option (List ℕ)
nonempty none = none
nonempty (some []) = none
nonempty (some (e ∷ es)) = some (e ∷ es)

-- The edges of a loop of some length, if there are that many and at least two.
abbrev pub whole_loop : ℕ → Option (List ℕ) → Option (List ℕ)
whole_loop expected none = none
whole_loop expected (some es) =
    if not (length es == expected) || ltb (length es) 2 then none else some es

-- `ForwardAndReturnPath`
pub record ForwardAndReturnPath : Type 0 where
  pub forward : List ℕ
  pub reply : List ℕ

module _ {W : Type 0} (pg : Petgraph W) (as_ref : ℕ → List ℕ) where
  -- The edge between the nodes of two slots.
  abbrev pub hop : InnerGraph pg → (from to : ℕ) → Option ℕ
  hop s from to = edge_between pg as_ref (resolve pg as_ref s from) (resolve pg as_ref s to) s.graph

  -- The edges between consecutive slots, the first of which is given.
  unfoldable pub walk : InnerGraph pg → ℕ → List ℕ → Option (List ℕ)
  walk s from [] = some []
  walk s from (to ∷ rest) = extend (hop s from to) (walk s to rest)

  abbrev pub close_loop : InnerGraph pg → ℕ → Option (List ℕ × List ℕ) → Option (List ℕ)
  close_loop s me_val none = none
  close_loop s me_val (some (loop, tail)) =
      if any (λ slot. not (slot == 0)) tail
      then none
      else whole_loop (length loop) (walk s me_val loop)

  abbrev pub resolve_loopback_slots : InnerGraph pg → ℕ → List ℕ → Option (List ℕ)
  resolve_loopback_slots s me_val [] = none
  resolve_loopback_slots s me_val (first ∷ rest) =
      if first == me_val then close_loop s me_val (up_to me_val rest) else none

  unfoldable pub resolve_loopback_edges :
      (path_len : ℕ) → InnerGraph pg → (me : ℕ) → (path_bytes : List ℕ) → Option (List ℕ)
  resolve_loopback_edges path_len s me path_bytes =
      if length path_bytes == 8 * path_len
      then resolve_loopback_slots s (encode as_ref me) (slots_of path_len path_bytes)
      else none

  abbrev pub walk_all : InnerGraph pg → List ℕ → Option (List ℕ)
  walk_all s [] = some []
  walk_all s (first ∷ rest) = walk s first rest

  abbrev pub join_legs :
      InnerGraph pg → Option (List ℕ × List ℕ) → Option (List ℕ × List ℕ) → Option (List ℕ)
  join_legs s none back = none
  join_legs s (some (out, rest)) none = none
  join_legs s (some (out, rest)) (some (back, rest')) = nonempty (walk_all s (out ++ back))

  abbrev pub resolve_legs : InnerGraph pg → ℕ → (forward reply : List ℕ) → Option (List ℕ)
  resolve_legs s me_val [] reply = none
  resolve_legs s me_val (first ∷ forward) [] = none
  resolve_legs s me_val (first ∷ forward) (replier ∷ reply) =
      if first == me_val
      then join_legs s (up_to replier (first ∷ forward)) (up_to me_val reply)
      else none

  unfoldable pub resolve_round_trip_edges :
      InnerGraph pg → (me : ℕ) → ForwardAndReturnPath → Option (List ℕ)
  resolve_round_trip_edges s me paths = resolve_legs s (encode as_ref me) paths.forward paths.reply
