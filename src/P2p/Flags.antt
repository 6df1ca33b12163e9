-- ===== src/P2p/Flags.antt =====
-- The liveness flags over any history of the registry.
use hopr_impls.Base.{
  ℕ, ◌<◌, ◌≡◌, ◌≢◌, refl, true, false, some, List, [], ◌∷◌, err, arith, All, Option-cases, inl, inr,
}
use hopr_impls.Base.Keyed.{nat_key, get, get-insert, get-remove}
use hopr_impls.P2p.Liveness.{
  LivenessRegistry, default_registry, get_or_create_connected, remove, is_alive, connection_aborted,
  Poll, ready, LivenessStream, poll, connected_entry, remove_entry,
}

-- A registered flag has been allocated and is set, and no two peers share one.
pub record IsWellFormed (r : LivenessRegistry) : Type 0 where
  pub allocated : (p f : ℕ) → get p r.peers ≡ some f → f < r.next_flag
  pub live : (p f : ℕ) → get p r.peers ≡ some f → get f r.flags ≡ some true
  pub apart : (p q f : ℕ) → get p r.peers ≡ some f → get q r.peers ≡ some f → p ≡ q

pub data Call : Type 0 where
  connect disconnect : ℕ → Call

abbrev pub apply : Call → LivenessRegistry → LivenessRegistry
apply (connect p) r = (get_or_create_connected p r).1
apply (disconnect p) r = remove p r

unfoldable pub run : List Call → LivenessRegistry → LivenessRegistry
run [] r = r
run (c ∷ cs) r = run cs (apply c r)

connect-IsWellFormed :
    (p : ℕ) (r : LivenessRegistry) → IsWellFormed r → IsWellFormed (get_or_create_connected p r).1
unfolding get_or_create_connected
connect-IsWellFormed p r w = elim (Option-cases (get p r.peers)) [
  | inr (f, e) ↦ rw (e, connected_entry) w
  | inl e ↦
      rw (e, connected_entry)
        (record {
          allocated = λ q f h. ground (arith, w.allocated q f, get-insert p q r.next_flag r.peers);
          live = λ q f h. ground (
            arith,
            w.live q f,
            w.allocated q f,
            get-insert p q r.next_flag r.peers,
            get-insert r.next_flag f true r.flags,
          );
          apart = λ q s f h k. ground (
            arith,
            w.apart q s f,
            w.allocated q f,
            w.allocated s f,
            get-insert p q r.next_flag r.peers,
            get-insert p s r.next_flag r.peers,
          );
        })
]

disconnect-IsWellFormed :
    (p : ℕ) (r : LivenessRegistry) → IsWellFormed r → IsWellFormed (remove p r)
unfolding remove
disconnect-IsWellFormed p r w = elim (Option-cases (get p r.peers)) [
  | inl e ↦ rw (e, remove_entry) w
  | inr (g, e) ↦
      rw (e, remove_entry)
        (record {
          allocated = λ q f h. ground (arith, w.allocated q f, get-remove p q r.peers);
          live = λ q f h. ground (
            arith,
            w.live q f,
            w.apart p q f,
            get-remove p q r.peers,
            e,
            get-insert g f false r.flags,
          );
          apart = λ q s f h k.
              ground (arith, w.apart q s f, get-remove p q r.peers, get-remove p s r.peers);
        })
]

run-IsWellFormed :
    (cs : List Call) (r : LivenessRegistry) → IsWellFormed r → IsWellFormed (run cs r)
unfolding run
run-IsWellFormed [] r w = w
run-IsWellFormed (connect p ∷ cs) r w =
    run-IsWellFormed cs (get_or_create_connected p r).1 (connect-IsWellFormed p r w)
run-IsWellFormed (disconnect p ∷ cs) r w =
    run-IsWellFormed cs (remove p r) (disconnect-IsWellFormed p r w)

default-IsWellFormed : IsWellFormed default_registry
unfolding get
default-IsWellFormed = record {
  allocated = λ p f h. cc;
  live = λ p f h. cc;
  apart = λ p q f h k. cc;
}

-- A flag that was allocated and has been cleared.
abbrev pub IsDead : ℕ → LivenessRegistry → Type 0
IsDead f r = (f < r.next_flag) × (get f r.flags ≡ some false)

apply-IsDead : (c : Call) (f : ℕ) (r : LivenessRegistry) → IsDead f r → IsDead f (apply c r)
unfolding get_or_create_connected remove
apply-IsDead (connect p) f r d = elim (Option-cases (get p r.peers)) [
  | inr (g, e) ↦ ground (arith, e, d)
  | inl e ↦ ground (arith, e, d, get-insert r.next_flag f true r.flags)
]
apply-IsDead (disconnect p) f r d = elim (Option-cases (get p r.peers)) [
  | inl e ↦ ground (arith, e, d)
  | inr (g, e) ↦ ground (arith, e, d, get-insert g f false r.flags)
]

run-IsDead : (cs : List Call) (f : ℕ) (r : LivenessRegistry) → IsDead f r → IsDead f (run cs r)
unfolding run
run-IsDead [] f r d = d
run-IsDead (c ∷ cs) f r d = run-IsDead cs f (apply c r) (apply-IsDead c f r d)

remove-IsDead :
    (p f : ℕ) (r : LivenessRegistry)
    → IsWellFormed r
    → get p r.peers ≡ some f
    → IsDead f (remove p r)
unfolding remove
remove-IsDead p f r w h = ground (arith, h, w.allocated p f h, get-insert f f false r.flags)

connect-found :
    (p : ℕ) (r : LivenessRegistry)
    → let (f, r') = get_or_create_connected p r in get p r'.peers ≡ some f
unfolding get_or_create_connected
connect-found p r = elim (Option-cases (get p r.peers)) [
  | inr (g, e) ↦ ground (arith, e)
  | inl e ↦ ground (arith, e, get-insert p p r.next_flag r.peers)
]

-- The calls do not disconnect the peer.
abbrev pub IsOther : ℕ → Call → Type 0
IsOther p (connect q) = Unit
IsOther p (disconnect q) = q ≢ p

apply-found :
    (p f : ℕ) (c : Call) (r : LivenessRegistry)
    → IsOther p c
    → get p r.peers ≡ some f
    → get p (apply c r).peers ≡ some f
unfolding get_or_create_connected remove
apply-found p f (connect q) r o h = elim (Option-cases (get q r.peers)) [
  | inr (g, e) ↦ ground (arith, e, h)
  | inl e ↦ ground (arith, e, h, get-insert q p r.next_flag r.peers)
]
apply-found p f (disconnect q) r o h = elim (Option-cases (get q r.peers)) [
  | inl e ↦ ground (arith, e, h)
  | inr (g, e) ↦ ground (arith, e, h, o, get-remove q p r.peers)
]

run-found :
    (p f : ℕ) (cs : List Call) (r : LivenessRegistry)
    → All (IsOther p) cs
    → get p r.peers ≡ some f
    → get p (run cs r).peers ≡ some f
unfolding run
run-found p f [] r o h = h
run-found p f (c ∷ cs) r o h = run-found p f cs (apply c r) o.1 (apply-found p f c r o.0 h)

module _ {S A : Type 0} (inner_poll : S → Poll A × S) (before after : List Call) (p : ℕ)
    (inner : S) where
  connected-IsWellFormed : IsWellFormed (get_or_create_connected p (run before default_registry)).1
  connected-IsWellFormed =
      connect-IsWellFormed p (run before default_registry)
        (run-IsWellFormed before default_registry default-IsWellFormed)

  -- A stream is opened for a peer after some history, and the peer is disconnected: whatever happens
  -- to the registry later, reconnections of the peer included, each poll of the stream returns the
  -- error that the connection was aborted and does not poll the stream inside.
  pub poll-aborted :
      let (f, r) = get_or_create_connected p (run before default_registry) in
      let stream : LivenessStream S = record { inner = inner; alive = f } in
      poll inner_poll (run after (remove p r)) stream ≡ (ready (err connection_aborted), stream)
  unfolding poll is_alive
  poll-aborted =
      let (f, r) = get_or_create_connected p (run before default_registry) in
      let dead : IsDead f (run after (remove p r)) = run-IsDead after f (remove p r) (
        remove-IsDead p f r connected-IsWellFormed
          (connect-found p (run before default_registry))) in
      rw dead.1 refl

  -- A stream is opened for a peer after some history: whatever happens to the registry later, as
  -- long as the peer is not disconnected, each poll of the stream is a poll of the stream inside.
  pub poll-inner :
      All (IsOther p) after
      → let (f, r) = get_or_create_connected p (run before default_registry) in
        poll inner_poll (run after r) (record { inner = inner; alive = f })
        ≡ ((inner_poll inner).0, record { inner = (inner_poll inner).1; alive = f })
  unfolding poll is_alive
  poll-inner o =
      let (f, r) = get_or_create_connected p (run before default_registry) in
      let set : get f (run after r).flags ≡ some true =
        (run-IsWellFormed after r connected-IsWellFormed).live p f
          (run-found p f after r o (connect-found p (run before default_registry))) in
      rw set refl
