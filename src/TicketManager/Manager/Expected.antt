-- ===== src/TicketManager/Manager/Expected.antt =====
-- `insert_incoming_ticket`: what it is expected to neglect and to leave in the queue.
use hopr_impls.Base.{
  ℕ, ◌+◌, ◌≤◌, ◌≡◌, refl, true, false, List, [], ◌∷◌, arith, head?, none, some, if◌then◌else◌, ltb,
}
use hopr_impls.Base.Keyed.{nat_key, get, insert, get-insert}
use hopr_impls.HoprApi.{HoprApi, Ticket}
use hopr_impls.TicketManager.Queue.Traits.{place}
use hopr_impls.TicketManager.Queue.Sums.{total, amount}
use hopr_impls.TicketManager.Manager.State.{ChannelTicketQueue, sum_amounts}

pub sum_amounts_lem :
    (api : HoprApi) (acc : ℕ) (ts : List Ticket)
    → acc + total amount ts ≤ api.max_balance
    → sum_amounts api acc ts ≡ acc + total amount ts
unfolding sum_amounts
sum_amounts_lem api acc [] h = omega arith
sum_amounts_lem api acc (t ∷ ts) h = ground (arith, sum_amounts_lem api (acc + t.amount) ts)

pub get_put :
    (id : ℕ) (c : ChannelTicketQueue) (m : List (ℕ × ChannelTicketQueue))
    → get id (insert id c m) ≡ some c
get_put id c m = ground (arith, get-insert id id c m)

-- What an insertion neglects, and what it leaves in the queue.
abbrev pub expected : HoprApi → Ticket → List Ticket → List Ticket × List Ticket
expected api t [] = ([], t ∷ [])
expected api t (u ∷ us) =
    if ltb u.channel_epoch t.channel_epoch
    then (u ∷ us, t ∷ [])
    else if ltb t.channel_epoch u.channel_epoch
    then (t ∷ [], u ∷ us)
    else ([], place api t (u ∷ us))

module _ (api : HoprApi) (t : Ticket) where
  pub expected-none :
      (ts : List Ticket) → none ≡ head? ts → expected api t ts ≡ ([], place api t ts)
  unfolding place
  expected-none [] h = refl
  expected-none (v ∷ ts) h = cc

  pub expected-newer :
      (u : Ticket) (ts : List Ticket)
      → some u ≡ head? ts
      → ltb u.channel_epoch t.channel_epoch ≡ true
      → expected api t ts ≡ (ts, t ∷ [])
  expected-newer u [] h e = cc
  expected-newer u (v ∷ ts) h e = ground arith

  pub expected-older :
      (u : Ticket) (ts : List Ticket)
      → some u ≡ head? ts
      → ltb t.channel_epoch u.channel_epoch ≡ true
      → expected api t ts ≡ (t ∷ [], ts)
  expected-older u [] h e = cc
  expected-older u (v ∷ ts) h e = ground arith

  pub expected-same :
      (u : Ticket) (ts : List Ticket)
      → some u ≡ head? ts
      → ltb u.channel_epoch t.channel_epoch ≡ false
      → ltb t.channel_epoch u.channel_epoch ≡ false
      → expected api t ts ≡ ([], place api t ts)
  expected-same u [] h e f = cc
  expected-same u (v ∷ ts) h e f = ground arith
