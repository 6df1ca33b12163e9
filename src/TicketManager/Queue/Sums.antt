-- ===== src/TicketManager/Queue/Sums.antt =====
-- Sums over the tickets of a queue, and what `default_total_value` computes.
use mathlib.Core.List.{Perm, Permᴰ}
use mathlib.Core.Logic.{∥∥₁_elim}
use native.Mathlib.Nat.{ℕ_set}
use hopr_impls.Base.{
  ℕ, ◌+◌, ◌≤◌, min, ◌≡◌, refl, ◌∙◌, ◌&&◌, Option, List, [], ◌∷◌, Result, ok, err, arith,
  Result-cases, inl, inr, if◌then◌else◌, ◌==◌, leb,
}
use hopr_impls.HoprApi.{HoprApi, Ticket}
use hopr_impls.TicketManager.Queue.Traits.{
  TicketQueue, IsTicketQueue, min_index_of, sum_matching, place, default_total_value, oks,
}

abbrev pub total : (Ticket → ℕ) → List Ticket → ℕ
total w [] = 0
total w (t ∷ ts) = w t + total w ts

-- The amounts, and those of one epoch from a least index on.
abbrev pub amount : Ticket → ℕ
amount t = t.amount

abbrev pub matching : ℕ → ℕ → Ticket → ℕ
matching epoch least t = if t.channel_epoch == epoch && leb least t.index then t.amount else 0

module _ (w : Ticket → ℕ) where
  total_permᴰ : {ts us : List Ticket} → Permᴰ ts us → total w ts ≡ total w us
  total_permᴰ Permᴰ.nil = refl
  total_permᴰ (Permᴰ.cons e d) = ground (arith, e, total_permᴰ d)
  total_permᴰ (Permᴰ.swap e f) = ground (arith, e, f)
  total_permᴰ (Permᴰ.trans d e) = total_permᴰ d ∙ total_permᴰ e

  pub total_perm : {ts us : List Ticket} → Perm ts us → total w ts ≡ total w us
  total_perm p = ∥∥₁_elim p (ℕ_set _ _) total_permᴰ

  pub total-place :
      (api : HoprApi) (t : Ticket) (ts : List Ticket) → total w (place api t ts) ≡ w t + total w ts
  unfolding place
  total-place api t [] = refl
  total-place api t (u ∷ us) = ground (arith, total-place api t us)

  total-le :
      (v : Ticket → ℕ) → ((t : Ticket) → w t ≤ v t) → (ts : List Ticket) → total w ts ≤ total v ts
  total-le v h [] = omega arith
  total-le v h (t ∷ ts) = omega (arith, h t, total-le v h ts)

pub matching-le :
    (epoch least : ℕ) (ts : List Ticket) → total (matching epoch least) ts ≤ total amount ts
matching-le epoch least ts = total-le (matching epoch least) amount (λ t. ground arith) ts

sum_matching_lem :
    (api : HoprApi) (epoch least acc : ℕ) (rs : List (Result ℕ Ticket))
    → acc ≤ api.max_balance
    → sum_matching api epoch least acc rs
      ≡ min (acc + total (matching epoch least) (oks rs)) api.max_balance
unfolding sum_matching oks
sum_matching_lem api epoch least acc [] h = omega arith
sum_matching_lem api epoch least acc (err e ∷ rs) h = sum_matching_lem api epoch least acc rs h
sum_matching_lem api epoch least acc (ok t ∷ rs) h = ground (
  arith,
  sum_matching_lem api epoch least acc rs,
  sum_matching_lem api epoch least (min (acc + t.amount) api.max_balance) rs,
)

-- The default method, if it succeeds, is the sum of the amounts of the queue's tickets of the epoch
-- from the least index on, saturated.
pub default_total_value_lem :
    (api : HoprApi) {S : Type 0} (q : TicketQueue S) (lawful : IsTicketQueue api q) (h epoch : ℕ)
    (min_index : Option ℕ) (s : S) (n : ℕ)
    → default_total_value q api h epoch min_index s ≡ ok n
    → n
      ≡ min (total (matching epoch (min_index_of min_index)) (lawful.contents h s)) api.max_balance
unfolding default_total_value
default_total_value_lem api q lawful h epoch min_index s n e =
    elim (Result-cases (q.iter_unordered h s)) [
      | inl (rs, p) ↦ ground (
        arith,
        p,
        sum_matching_lem api epoch (min_index_of min_index) 0 rs,
        total_perm (matching epoch (min_index_of min_index)) (lawful.iter_lem h s rs p),
      )
      | inr (x, p) ↦ ground (arith, p)
    ]
