-- ===== src/TicketManager/Queue/Value.antt =====
-- The values that `ValueCachedQueue` keeps are those of the tickets in the queue.
use hopr_impls.Base.{
  ℕ, ◌+◌, ◌-◌, ◌≤◌, min, ◌≡◌, ◌≢◌, refl, subst, sym, max, List, [], ◌∷◌, ok, arith, head?, tail,
  All, Result-cases, inl, inr, Option, none, some,
}
use hopr_impls.Base.Keyed.{nat_key, get-insert}
use hopr_impls.HoprApi.{HoprApi, Ticket}
use hopr_impls.TicketManager.Queue.Traits.{TicketQueue, IsTicketQueue, place}
use hopr_impls.TicketManager.Queue.Sums.{total, amount, matching, total-place, matching-le}
use hopr_impls.TicketManager.Queue.Cached.{
  ValueCachedQueue, cached, add_value, subtract_value, epoch_of, push, pop, or_default, after_pop,
}

-- The cache of each epoch is the sum over its tickets.
abbrev pub IsExact : List (ℕ × ℕ) → List Ticket → Type 0
IsExact m ts = (epoch : ℕ) → cached epoch m ≡ total (matching epoch 0) ts

abbrev pub AreOf : ℕ → List Ticket → Type 0
AreOf epoch = All (λ (t : Ticket). t.channel_epoch ≡ epoch)

-- All tickets are of one epoch, which is the current one; an empty queue has none.
abbrev pub IsUniform : Option ℕ → List Ticket → Type 0
IsUniform none ts = ts ≡ []
IsUniform (some epoch) ts = (ts ≢ []) × AreOf epoch ts

module _ (api : HoprApi) where
  pub add_value-IsExact :
      (m : List (ℕ × ℕ)) (t : Ticket) (ts : List Ticket)
      → total amount (t ∷ ts) ≤ api.max_balance
      → IsExact m ts
      → IsExact (add_value api t m) (t ∷ ts)
  unfolding add_value
  add_value-IsExact m t ts fits x epoch = ground (
    arith,
    x epoch,
    x t.channel_epoch,
    matching-le t.channel_epoch 0 ts,
    get-insert t.channel_epoch epoch (min (cached t.channel_epoch m + t.amount) api.max_balance) m,
  )

pub subtract_value-IsExact :
    (m : List (ℕ × ℕ)) (t : Ticket) (ts : List Ticket)
    → IsExact m (t ∷ ts)
    → IsExact (subtract_value t m) ts
unfolding subtract_value
subtract_value-IsExact m t ts x epoch = ground (
  arith,
  x epoch,
  x t.channel_epoch,
  get-insert t.channel_epoch epoch (cached t.channel_epoch m - t.amount) m,
)

pub place-AreOf :
    (api : HoprApi) (epoch : ℕ) (t : Ticket) (ts : List Ticket)
    → t.channel_epoch ≡ epoch
    → AreOf epoch ts
    → AreOf epoch (place api t ts)
unfolding place
place-AreOf api epoch t [] e a = (e, tt)
place-AreOf api epoch t (u ∷ us) e a = ground (arith, place-AreOf api epoch t us e a.1)

pub AreOf-uniform :
    (e : ℕ) (c : Option ℕ) (ts : List Ticket) → IsUniform c ts → ts ≢ [] → AreOf e ts → c ≡ some e
AreOf-uniform e none ts u ne a = absurd (ne u)
AreOf-uniform e (some c) [] u ne a = absurd (ne refl)
AreOf-uniform e (some c) (t ∷ ts) u ne a = ground arith

pub total_of : (e : ℕ) (ts : List Ticket) → AreOf e ts → total (matching e 0) ts ≡ total amount ts
total_of e [] a = refl
total_of e (t ∷ ts) a = ground (arith, total_of e ts a.1)

pub tail-uniform : (c : ℕ) (ts : List Ticket) → AreOf c ts → IsUniform (epoch_of (head? ts)) ts
tail-uniform c [] a = refl
tail-uniform c (t ∷ ts) a = (λ e. cc, (refl, subst (λ (e : ℕ). AreOf e ts) (sym a.0) a.1))

pop_uniform :
    (c : Option ℕ) (t : Ticket) (ts : List Ticket)
    → IsUniform c (t ∷ ts)
    → IsUniform (epoch_of (head? ts)) ts
pop_uniform none t ts u = cc
pop_uniform (some c) t ts u = tail-uniform c ts u.1.1

pub nil_of_head : (ts : List Ticket) → none ≡ head? ts → ts ≡ []
nil_of_head [] e = refl
nil_of_head (t ∷ ts) e = cc

pub cons_of_head : (t : Ticket) (ts : List Ticket) → some t ≡ head? ts → ts ≡ t ∷ tail ts
cons_of_head t [] e = cc
cons_of_head t (u ∷ ts) e = cc

push_epoch :
    (e : ℕ) (c : Option ℕ) (ts : List Ticket)
    → IsUniform c ts
    → AreOf e ts
    → max e (or_default c) ≡ e
push_epoch e none ts u a = omega arith
push_epoch e (some c) [] u a = absurd (u.0 refl)
push_epoch e (some c) (t ∷ ts) u a = ground arith

place-ne-nil : (api : HoprApi) (t : Ticket) (ts : List Ticket) → place api t ts ≢ []
unfolding place
place-ne-nil api t [] e = cc
place-ne-nil api t (u ∷ us) e = ground arith

module _ (api : HoprApi) {S : Type 0} (q : TicketQueue S) (lawful : IsTicketQueue api q) where
  open lawful use {contents, pop_lem, contents-pop, contents-push, peek_lem, iter_lem}

  -- The adapter agrees with the queue inside, whose tickets are of one epoch.
  pub record IsCached (v : ValueCachedQueue) (s : S) : Type 0 where
    pub exact : IsExact v.value_cache (contents v.queue s)
    pub uniform : IsUniform v.current_epoch (contents v.queue s)

  -- A push without error of a ticket of the epoch that is queued puts it in its place, and the
  -- cache stays exact, as long as the amounts together fit in a balance.
  pub push-IsCached :
      (v : ValueCachedQueue) (t : Ticket) (s : S)
      → IsCached v s
      → AreOf t.channel_epoch (contents v.queue s)
      → t.amount + total amount (contents v.queue s) ≤ api.max_balance
      → (push api q v t s).0 ≡ ok tt
      → let (r, v', s') = push api q v t s in
        IsCached v' s' × (contents v'.queue s' ≡ place api t (contents v.queue s))
  unfolding push
  push-IsCached v t s c same fits h =
      let e = t.channel_epoch in
      let ts : List Ticket = contents v.queue s in
      let placed : contents v.queue (q.push v.queue t s).1 ≡ place api t ts =
        ground (arith, contents-push v.queue v.queue t s) in
      (
        record {
          exact = λ epoch. ground (
            arith,
            placed,
            total-place (matching epoch 0) api t ts,
            add_value-IsExact api v.value_cache t ts fits c.exact epoch,
          );
          uniform =
              rw (push_epoch e v.current_epoch ts c.uniform same, placed)
                (place-ne-nil api t ts, place-AreOf api e t ts refl same);
        },
        placed,
      )

  popped :
      (v : ValueCachedQueue) (s : S) (t : Ticket)
      → IsCached v s
      → (q.pop v.queue s).0 ≡ ok (some t)
      → let s' = (q.pop v.queue s).1 in
        (contents v.queue s ≡ t ∷ contents v.queue s')
        × IsExact (subtract_value t v.value_cache) (contents v.queue s')
        × IsUniform (epoch_of (head? (contents v.queue s'))) (contents v.queue s')
  popped v s t c p =
      let s' : S = (q.pop v.queue s).1 in
      let split : contents v.queue s ≡ t ∷ contents v.queue s' = ground (
        arith,
        p,
        cons_of_head t (contents v.queue s) (pop_lem v.queue s (some t) p),
        contents-pop v.queue v.queue s,
      ) in
      (
        split,
        subtract_value-IsExact v.value_cache t (contents v.queue s')
            (subst (IsExact v.value_cache) split c.exact),
        pop_uniform v.current_epoch t (contents v.queue s')
            (subst (IsUniform v.current_epoch) split c.uniform),
      )

  pop_empty :
      (v : ValueCachedQueue) (s : S)
      → IsCached v s
      → (q.pop v.queue s).0 ≡ ok none
      → (contents v.queue s ≡ []) × (contents v.queue (q.pop v.queue s).1 ≡ contents v.queue s)
  pop_empty v s c p =
      let empty : contents v.queue s ≡ [] =
        nil_of_head (contents v.queue s) (pop_lem v.queue s none p) in
      (empty, ground (arith, empty, contents-pop v.queue v.queue s))

  -- A pop without error returns the first ticket, takes it off, and the cache stays exact.
  pub pop-IsCached :
      (v : ValueCachedQueue) (s : S) (r : Option Ticket)
      → IsCached v s
      → (pop api q v s).0 ≡ ok r
      → let (_, v', s') = pop api q v s in
        IsCached v' s'
        × (r ≡ head? (contents v.queue s))
        × (contents v'.queue s' ≡ tail (contents v.queue s))
  unfolding pop
  pop-IsCached v s r c h = elim (Result-cases (q.pop v.queue s).0) [
    | inr (x, p) ↦ ground (arith, p)
    | inl (none, p) ↦
        let (empty, stay) = pop_empty v s c p in
        rw (p, after_pop)
          (
            record {
              exact = λ epoch. ground (arith, stay, c.exact epoch);
              uniform = subst (IsUniform v.current_epoch) (sym stay) c.uniform;
            },
            ground (arith, p, empty),
            ground (arith, stay, empty),
          )
    | inl (some t, p) ↦
        let (split, exact, uniform) = popped v s t c p in
        elim (Result-cases (q.peek v.queue (q.pop v.queue s).1)) [
          | inr (x, e) ↦ ground (arith, p, e)
          | inl (next, e) ↦
              let seen : next ≡ head? (contents v.queue (q.pop v.queue s).1) =
                peek_lem v.queue (q.pop v.queue s).1 next e in
              rw (p, after_pop, e)
                (
                  record {
                    exact = exact;
                    uniform =
                        subst
                          (λ (n : Option Ticket).
                            IsUniform (epoch_of n) (contents v.queue (q.pop v.queue s).1))
                          (sym seen) uniform;
                  },
                  ground (arith, p, e, split),
                  ground (arith, split),
                )
        ]
  ]
