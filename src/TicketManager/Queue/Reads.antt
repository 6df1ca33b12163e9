-- ===== src/TicketManager/Queue/Reads.antt =====
-- `ValueCachedQueue`: opening a queue, reading its value, and a push that fails.
use hopr_impls.Base.{
  ℕ, ◌+◌, ◌≤◌, min, ◌≡◌, refl, subst, sym, List, [], ◌∷◌, ok, err, arith, Result-cases, inl, inr,
  Option, none, some, ◌↔◌, ◌∙◌, if◌then◌else◌, ◌==◌,
}
use mathlib.Core.List.{Perm}
use hopr_impls.Base.Keyed.{nat_key, get, get-insert}
use hopr_impls.HoprApi.{HoprApi, Ticket}
use hopr_impls.TicketManager.Queue.Traits.{TicketQueue, IsTicketQueue, oks, min_index_of}
use hopr_impls.TicketManager.Queue.Sums.{
  total, amount, matching, total_perm, matching-le, default_total_value_lem,
}
use hopr_impls.TicketManager.Queue.Cached.{
  ValueCachedQueue, cached, add_value, load, cached_unrealized_value, new, push, total_value,
  value_at,
}
use hopr_impls.TicketManager.Queue.Value.{
  IsExact, AreOf, IsUniform, IsCached, add_value-IsExact, total_of,
}

-- The adapter after one round of `load`.
abbrev loaded : HoprApi → Ticket → ValueCachedQueue → ValueCachedQueue
loaded api t v = record v {
  value_cache = add_value api t v.value_cache;
  current_epoch = some t.channel_epoch;
}

abbrev last_epoch : List Ticket → ℕ → Option ℕ → Option ℕ
last_epoch [] e c = c
last_epoch (t ∷ ts) e c = some e

module _ (api : HoprApi) where
  -- `load` adds the tickets to those counted before, `us`.
  load-IsExact :
      (ts us : List Ticket) (v : ValueCachedQueue)
      → total amount ts + total amount us ≤ api.max_balance
      → IsExact v.value_cache us
      → (epoch : ℕ)
      → cached epoch (load api ts v).value_cache
        ≡ total (matching epoch 0) ts + total (matching epoch 0) us
  unfolding load
  load-IsExact [] us v fits x epoch = omega (arith, x epoch)
  load-IsExact (t ∷ ts) us v fits x epoch = omega (
    arith,
    load-IsExact ts (t ∷ us) (loaded api t v) (omega arith)
        (add_value-IsExact api v.value_cache t us (omega arith) x) epoch,
  )

  load_lem :
      (e : ℕ) (ts : List Ticket) (v : ValueCachedQueue)
      → AreOf e ts
      → ((load api ts v).current_epoch ≡ last_epoch ts e v.current_epoch)
        × ((load api ts v).queue ≡ v.queue)
  unfolding load
  load_lem e [] v a = (refl, refl)
  load_lem e (t ∷ []) v a = ground arith
  load_lem e (t ∷ u ∷ ts) v a = load_lem e (u ∷ ts) (loaded api t v) a.1

load-queue :
    (api : HoprApi) (ts : List Ticket) (v : ValueCachedQueue) → (load api ts v).queue ≡ v.queue
unfolding load
load-queue api [] v = refl
load-queue api (t ∷ ts) v = load-queue api ts (loaded api t v)

pub new-queue :
    (api : HoprApi) {S : Type 0} (q : TicketQueue S) (h : ℕ) (s : S) (v : ValueCachedQueue)
    → new api q h s ≡ ok v
    → v.queue ≡ h
unfolding new
new-queue api q h s v p = elim (Result-cases (q.iter_unordered h s)) [
  | inr (x, i) ↦ ground (arith, i)
  | inl (rs, i) ↦ ground (
    arith,
    i,
    load-queue api (oks rs) (record { queue = h; value_cache = []; current_epoch = none }),
  )
]

-- One for each ticket of another epoch.
abbrev strange : ℕ → Ticket → ℕ
strange e t = if t.channel_epoch == e then 0 else 1

AreOf-iff : (e : ℕ) (ts : List Ticket) → AreOf e ts ↔ (total (strange e) ts ≡ 0)
AreOf-iff e [] = (λ _. refl, λ _. tt)
AreOf-iff e (t ∷ ts) = ground (arith, AreOf-iff e ts)

uniform_of :
    (e : ℕ) (ts us : List Ticket) → Perm ts us → AreOf e us → IsUniform (last_epoch ts e none) us
uniform_of e [] [] p a = refl
uniform_of e [] (u ∷ us) p a = absurd (omega (arith, total_perm (λ _. 1) p))
uniform_of e (t ∷ ts) us p a = (λ n. ground (arith, n, total_perm (λ _. 1) p), a)

none_cached : (epoch : ℕ) → cached epoch [] ≡ 0
unfolding get
none_cached epoch = refl

module _ (api : HoprApi) {S : Type 0} (q : TicketQueue S) (lawful : IsTicketQueue api q) where
  open lawful use {contents, iter_lem}

  -- Opening a queue whose tickets are of one epoch, if it succeeds, gives an adapter that agrees
  -- with it, as long as the amounts together fit in a balance.
  pub new-IsCached :
      (h e : ℕ) (s : S) (v : ValueCachedQueue)
      → AreOf e (contents h s)
      → total amount (contents h s) ≤ api.max_balance
      → new api q h s ≡ ok v
      → (v.queue ≡ h) × IsCached api q lawful v s
  unfolding new
  new-IsCached h e s v same fits p = elim (Result-cases (q.iter_unordered h s)) [
    | inr (x, i) ↦ ground (arith, i)
    | inl (rs, i) ↦
        let perm : Perm (oks rs) (contents h s) = iter_lem h s rs i in
        let start : ValueCachedQueue = record {
          queue = h;
          value_cache = [];
          current_epoch = none;
        } in
        let all : AreOf e (oks rs) =
          (AreOf-iff e (oks rs)).1
            (total_perm (strange e) perm ∙ (AreOf-iff e (contents h s)).0 same) in
        let v' : ValueCachedQueue = load api (oks rs) start in
        let same_v : v ≡ v' = ground (arith, i) in
        let (epoch, handle) = load_lem api e (oks rs) start all in
        let cached' : IsCached api q lawful v' s = record {
          exact = λ n. ground (
            arith,
            handle,
            total_perm (matching n 0) perm,
            load-IsExact api (oks rs) [] start (omega (arith, total_perm amount perm))
                (λ (k : ℕ). none_cached k) n,
          );
          uniform =
              subst (λ (j : ℕ). IsUniform v'.current_epoch (contents j s)) (sym handle)
                (subst (λ (c : Option ℕ). IsUniform c (contents h s)) (sym epoch)
                  (uniform_of e (oks rs) (contents h s) perm same));
        } in
        (
          ground (arith, same_v, handle),
          subst (λ (w : ValueCachedQueue). IsCached api q lawful w s) (sym same_v) cached',
        )
  ]

  -- The value read from memory alone is the sum of the amounts of all tickets in the queue.
  pub cached_unrealized_value_lem :
      (v : ValueCachedQueue) (s : S)
      → IsCached api q lawful v s
      → cached_unrealized_value v ≡ total amount (contents v.queue s)
  unfolding cached_unrealized_value
  cached_unrealized_value_lem v s c = value_of v.current_epoch c.uniform
    where
      value_of :
          (e : Option ℕ)
          → IsUniform e (contents v.queue s)
          → value_at e v.value_cache ≡ total amount (contents v.queue s)
      value_of none u = ground (arith, u)
      value_of (some e) u = ground (arith, c.exact e, total_of e (contents v.queue s) u.1)

  -- From the cache or by a scan, the value of an epoch from a least index on is the sum over the
  -- matching tickets, as long as the amounts together fit in a balance.
  pub total_value_lem :
      (v : ValueCachedQueue) (epoch : ℕ) (min_index : Option ℕ) (s : S) (n : ℕ)
      → IsCached api q lawful v s
      → total amount (contents v.queue s) ≤ api.max_balance
      → total_value api q v epoch min_index s ≡ ok n
      → n ≡ total (matching epoch (min_index_of min_index)) (contents v.queue s)
  unfolding total_value
  total_value_lem v epoch (some least) s n c fits e = ground (
    arith,
    default_total_value_lem api q lawful v.queue epoch (some least) s n e,
    matching-le epoch least (contents v.queue s),
  )
  total_value_lem v epoch none s n c fits e = ground (
    arith,
    default_total_value_lem api q lawful v.queue epoch none s n,
    matching-le epoch 0 (contents v.queue s),
    c.exact epoch,
  )

  -- A push that fails leaves the queue as it was, but has already raised the cached value of the
  -- ticket's epoch by the ticket's amount.
  pub push-err :
      (v : ValueCachedQueue) (t : Ticket) (s : S) (e : ℕ)
      → IsCached api q lawful v s
      → t.amount + total amount (contents v.queue s) ≤ api.max_balance
      → (push api q v t s).0 ≡ err e
      → let (_, v', s') = push api q v t s in
        (contents v'.queue s' ≡ contents v.queue s)
        × (cached t.channel_epoch v'.value_cache
            ≡ total (matching t.channel_epoch 0) (contents v'.queue s') + t.amount)
  unfolding push add_value
  push-err v t s e c fits h = ground (
    arith,
    lawful.contents-push v.queue v.queue t s,
    c.exact t.channel_epoch,
    matching-le t.channel_epoch 0 (contents v.queue s),
    get-insert t.channel_epoch t.channel_epoch
        (min (cached t.channel_epoch v.value_cache + t.amount) api.max_balance) v.value_cache,
  )
