-- ===== src/TicketManager/Queue/Traits.antt =====
-- ticket-manager/src/traits.rs: `TicketQueue` and `TicketQueueStore` over a store `S`. A queue is a
-- handle, since a queue that is opened twice is one queue (the memory store shares it by `Arc`, the
-- database by the name of its table); its tickets are part of the store. An error of the backend is
-- an opaque number. The loop of `drain` takes fuel.
use hopr_impls.Base.{
  ℕ, zero, suc, ◌≡◌, Bool, ◌&&◌, Option, none, some, List, [], ◌∷◌, Result, ok, err, is_ok, Exec,
  and_then, proceed, if◌then◌else◌, ◌==◌, leb, length, head?, tail,
}
use mathlib.Core.List.{Perm}
use hopr_impls.HoprApi.{HoprApi, Ticket, balance_add}

pub record TicketQueue (S : Type 0) : Type 0 where
  pub len : ℕ → S → Result ℕ ℕ
  pub push : ℕ → Ticket → Exec S ℕ (Unit {0})
  pub pop : ℕ → Exec S ℕ (Option Ticket)
  pub peek : ℕ → S → Result ℕ (Option Ticket)
  pub iter_unordered : ℕ → S → Result ℕ (List (Result ℕ Ticket))

pub record TicketQueueStore (S : Type 0) : Type 0 where
  pub queue : TicketQueue S
  pub open queue use *
  -- A channel's queue is opened as a handle.
  pub open_or_create_queue : ℕ → Exec S ℕ ℕ
  pub delete_queue : ℕ → Exec S ℕ (List Ticket)
  pub iter_queues : S → Result ℕ (List ℕ)

abbrev pub min_index_of : Option ℕ → ℕ
min_index_of none = 0
min_index_of (some n) = n

module _ (api : HoprApi) where
  -- The loop of `default_total_value`: tickets that cannot be read are left out.
  unfoldable pub sum_matching : ℕ → ℕ → ℕ → List (Result ℕ Ticket) → ℕ
  sum_matching epoch least acc [] = acc
  sum_matching epoch least acc (err e ∷ rs) = sum_matching epoch least acc rs
  sum_matching epoch least acc (ok t ∷ rs) =
      sum_matching epoch least
        (if t.channel_epoch == epoch && leb least t.index
          then balance_add api acc t.amount
          else acc)
        rs

  -- Where a ticket goes in the natural order.
  unfoldable pub place : Ticket → List Ticket → List Ticket
  place t [] = t ∷ []
  place t (u ∷ us) = if api.ticket_le t u then t ∷ u ∷ us else u ∷ place t us

-- The rest of the loop of `drain` follows a ticket that was popped.
abbrev pub after_pop :
    {S : Type 0} → Exec S ℕ (List Ticket) → Option Ticket → Exec S ℕ (List Ticket)
after_pop rest none s = (ok [], s)
after_pop rest (some t) s = proceed (rest s) (λ ts s'. (ok (t ∷ ts), s'))

module _ {S : Type 0} (q : TicketQueue S) where
  -- `TicketQueue::is_empty`
  unfoldable pub is_empty : ℕ → S → Result ℕ Bool
  is_empty h s = and_then (q.len h s) (λ n. ok (n == 0))

  unfoldable pub default_total_value : HoprApi → ℕ → ℕ → Option ℕ → S → Result ℕ ℕ
  default_total_value api h epoch min_index s =
      and_then (q.iter_unordered h s)
        (λ rs. ok (sum_matching api epoch (min_index_of min_index) 0 rs))

  -- `TicketQueue::drain`; `fuel` bounds the number of calls of `pop`.
  unfoldable pub drain : ℕ → ℕ → Exec S ℕ (List Ticket)
  drain zero h s = (ok [], s)
  drain (suc fuel) h s = let rest = drain fuel h in proceed (q.pop h s) (after_pop rest)

-- The tickets of the results that could be read.
unfoldable pub oks : List (Result ℕ Ticket) → List Ticket
oks [] = []
oks (ok t ∷ rs) = t ∷ oks rs
oks (err e ∷ rs) = oks rs

-- What an implementation promises: each handle has contents in the natural order of tickets, on
-- which an operation that succeeds has its effect, and one that fails has none.
pub record IsTicketQueue (api : HoprApi) {S : Type 0} (q : TicketQueue S) : Type 0 where
  pub contents : ℕ → S → List Ticket
  pub len_lem : (h : ℕ) (s : S) (n : ℕ) → q.len h s ≡ ok n → n ≡ length (contents h s)
  pub contents-push :
      (h j : ℕ) (t : Ticket) (s : S)
      → contents j (q.push h t s).1
        ≡ (if is_ok (q.push h t s).0 && h == j then place api t (contents j s) else contents j s)
  pub pop_lem :
      (h : ℕ) (s : S) (r : Option Ticket) → (q.pop h s).0 ≡ ok r → r ≡ head? (contents h s)
  pub contents-pop :
      (h j : ℕ) (s : S)
      → contents j (q.pop h s).1
        ≡ (if is_ok (q.pop h s).0 && h == j then tail (contents j s) else contents j s)
  pub peek_lem : (h : ℕ) (s : S) (r : Option Ticket) → q.peek h s ≡ ok r → r ≡ head? (contents h s)
  pub iter_lem :
      (h : ℕ) (s : S) (rs : List (Result ℕ Ticket))
      → q.iter_unordered h s ≡ ok rs
      → Perm (oks rs) (contents h s)
