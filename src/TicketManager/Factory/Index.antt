-- ===== src/TicketManager/Factory/Index.antt =====
-- `next_outgoing_ticket_index` over a history of calls.
use hopr_impls.Base.{
  ℕ, ◌+◌, ◌-◌, ◌<◌, ◌≤◌, min, max, ◌≡◌, Bool, ◌&&◌, List, [], ◌∷◌, arith, if◌then◌else◌, ltb, ◌==◌,
  length, All,
}
use native.Mathlib.Nat.{le_trans}
use hopr_impls.Base.Keyed.{same_pair, same_pair_iff}
use hopr_impls.HoprApi.{HoprApi, ChannelEntry}
use hopr_impls.TicketManager.Index.Defs.{u64_mod}
use hopr_impls.TicketManager.Cache.Defs.{OutgoingIndexCache, next_at_least}
use hopr_impls.TicketManager.Cache.Laws.{counter, next_at_least_lem, remove_lem}
use hopr_impls.TicketManager.Factory.Defs.{key, next_outgoing_ticket_index}

-- The first index of an epoch drops the counter of the epoch before.
abbrev pub drops : ℕ → ChannelEntry → ℕ × ℕ → Bool
drops v c j = v == 0 && ltb 1 c.channel_epoch && same_pair (c.id, c.channel_epoch - 1) j

module _ (api : HoprApi) where
  -- Within the range of `u64` the index is the greater of the counter and the channel's ticket
  -- index, saturated; the counter moves past it; the first index of an epoch after the first
  -- drops the counter of the epoch before; every other counter stays.
  pub next_outgoing_ticket_index_lem :
      (c : ChannelEntry) (t : OutgoingIndexCache)
      → counter (key c) t + 1 < u64_mod
      → c.ticket_index + 1 < u64_mod
      → let (t', v) = next_outgoing_ticket_index api c t in
        (v ≡ min (max (counter (key c) t) c.ticket_index) api.max_ticket_index)
        × ((j : ℕ × ℕ)
            → counter j t' ≡ (
                if same_pair (key c) j
                then max (counter (key c) t) c.ticket_index + 1
                else if drops v c j
                then 0
                else counter j t))
  unfolding next_outgoing_ticket_index
  next_outgoing_ticket_index_lem c t h l =
      let at = next_at_least_lem api (key c) c.ticket_index t h l in
      (
        ground (arith, at.0),
        λ j. ground (
          arith,
          at.0,
          at.1 j,
          remove_lem (c.id, c.channel_epoch - 1) (next_at_least api (key c) c.ticket_index t).0 j,
        ),
      )

  -- A history of calls, oldest first.
  unfoldable pub run_calls : List ChannelEntry → OutgoingIndexCache → OutgoingIndexCache
  run_calls [] t = t
  run_calls (c ∷ cs) t = run_calls cs (next_outgoing_ticket_index api c t).0

  abbrev pub IsBounded : ℕ → OutgoingIndexCache → Type 0
  IsBounded n t = (j : ℕ × ℕ) → counter j t ≤ n

  -- The call is not for the next epoch of the channel.
  abbrev pub IsNotNext : ℕ × ℕ → ChannelEntry → Type 0
  IsNotNext k c = ¬ ((c.id ≡ k.0) × (c.channel_epoch ≡ k.1 + 1))

  abbrev pub IsLatest : ℕ × ℕ → List ChannelEntry → Type 0
  IsLatest k = All (IsNotNext k)

  abbrev pub AreWithin : ℕ → List ChannelEntry → Type 0
  AreWithin top = All (λ (c : ChannelEntry). c.ticket_index ≤ top)

  next-IsBounded :
      (n : ℕ) (c : ChannelEntry) (t : OutgoingIndexCache)
      → IsBounded n t
      → c.ticket_index ≤ n
      → n + 1 < u64_mod
      → IsBounded (n + 1) (next_outgoing_ticket_index api c t).0
  next-IsBounded n c t b h room j = ground (
    arith,
    b j,
    b (key c),
    (next_outgoing_ticket_index_lem c t (ground (arith, b (key c))) (omega arith)).1 j,
  )

  next_mono :
      (n : ℕ) (c : ChannelEntry) (t : OutgoingIndexCache) (k : ℕ × ℕ)
      → IsBounded n t
      → c.ticket_index ≤ n
      → n + 1 < u64_mod
      → IsNotNext k c
      → counter k t ≤ counter k (next_outgoing_ticket_index api c t).0
  next_mono n c t k b h room ne = ground (
    arith,
    b (key c),
    same_pair_iff (key c) k,
    (next_outgoing_ticket_index_lem c t (ground (arith, b (key c))) (omega arith)).1 k,
  )

  run_calls_mono :
      (top n : ℕ) (cs : List ChannelEntry) (t : OutgoingIndexCache) (k : ℕ × ℕ)
      → IsBounded n t
      → top ≤ n
      → AreWithin top cs
      → n + length cs + 1 < u64_mod
      → IsLatest k cs
      → IsBounded (n + length cs) (run_calls cs t) × (counter k t ≤ counter k (run_calls cs t))
  unfolding run_calls
  run_calls_mono top n [] t k b le w room l = (λ j. omega (arith, b j), omega arith)
  run_calls_mono top n (c ∷ cs) t k b le w room l =
      let t' : OutgoingIndexCache = (next_outgoing_ticket_index api c t).0 in
      let (bounded, mono) =
        run_calls_mono top (n + 1) cs t' k (next-IsBounded n c t b (omega arith) (omega arith))
          (omega arith) w.1 (omega arith) l.1 in
      (
        λ j. omega (arith, bounded j),
        le_trans (next_mono n c t k b (omega arith) (omega arith) l.0) mono,
      )

  -- Take an index for a channel, let any history of calls follow that has no call for the
  -- channel's next epoch, and take an index for the same channel and epoch again: the second is
  -- greater, unless the first is the maximum. All counters and ticket indices are at most `top`,
  -- and the calls too few to wrap the 64-bit counter.
  pub next_outgoing_ticket_index_increases :
      (top : ℕ) (c c' : ChannelEntry) (cs : List ChannelEntry) (t : OutgoingIndexCache)
      → IsBounded top t
      → AreWithin top (c ∷ c' ∷ cs)
      → top + length cs + 3 < u64_mod
      → key c ≡ key c'
      → IsLatest (key c) cs
      → (next_outgoing_ticket_index api c t).1 < api.max_ticket_index
      → let t' = run_calls cs (next_outgoing_ticket_index api c t).0 in
        (next_outgoing_ticket_index api c t).1 < (next_outgoing_ticket_index api c' t').1
  next_outgoing_ticket_index_increases top c c' cs t b w room same l lt =
      let t1 : OutgoingIndexCache = (next_outgoing_ticket_index api c t).0 in
      let first = next_outgoing_ticket_index_lem c t (ground (arith, b (key c))) (omega arith) in
      let (bounded, mono) =
        run_calls_mono top (top + 1) cs t1 (key c) (next-IsBounded top c t b w.0 (omega arith))
          (omega arith) w.1.1 (omega arith) l in
      let second =
        next_outgoing_ticket_index_lem c' (run_calls cs t1) (ground (arith, bounded (key c')))
          (omega arith) in
      ground (arith, first.0, first.1 (key c), second.0, mono, same_pair_iff (key c) (key c))
