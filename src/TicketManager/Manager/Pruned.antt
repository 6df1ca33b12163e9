-- ===== src/TicketManager/Manager/Pruned.antt =====
-- `sync_from_incoming_channels`: what the loading of one channel prunes, and what it leaves.
use hopr_impls.Base.{
  ℕ, zero, suc, ◌≤◌, ◌<◌, ◌≡◌, refl, false, none, some, List, [], ◌∷◌, ok, arith, length, All,
  Result-cases, Bool-cases, inl, inr, if◌then◌else◌, subst, sym,
}
use hopr_impls.Base.Keyed.{nat_key, get}
use hopr_impls.HoprApi.{HoprApi, Ticket, ChannelEntry}
use hopr_impls.TicketManager.Queue.Traits.{TicketQueue, TicketQueueStore, IsTicketQueue}
use hopr_impls.TicketManager.Queue.Sums.{total, amount}
use hopr_impls.TicketManager.Queue.Cached.{new}
use hopr_impls.TicketManager.Queue.Value.{AreOf, IsCached, nil_of_head, cons_of_head}
use hopr_impls.TicketManager.Queue.Reads.{new-IsCached}
use hopr_impls.TicketManager.Manager.State.{ChannelTicketQueue, HoprTicketManager, from_queue}
use hopr_impls.TicketManager.Manager.Sync.{is_unredeemable, prune, load_channel}
use hopr_impls.TicketManager.Manager.Expected.{get_put}

-- The longest prefix of unredeemable tickets, and what follows it.
abbrev pub outdated : ChannelEntry → List Ticket → List Ticket
outdated c [] = []
outdated c (t ∷ ts) = if is_unredeemable c t then t ∷ outdated c ts else []

abbrev pub kept : ChannelEntry → List Ticket → List Ticket
kept c [] = []
kept c (t ∷ ts) = if is_unredeemable c t then kept c ts else t ∷ ts

abbrev pub IsRedeemable : ChannelEntry → Ticket → Type 0
IsRedeemable c t = is_unredeemable c t ≡ false

-- Each ticket has the least index of those from it on.
abbrev pub IsAscending : List Ticket → Type 0
IsAscending [] = Unit
IsAscending (t ∷ ts) = All (λ (u : Ticket). t.index ≤ u.index) ts × IsAscending ts

after_first :
    (e : ℕ) (c : ChannelEntry) (t : Ticket) (ts : List Ticket)
    → t.channel_epoch ≡ e
    → AreOf e ts
    → All (λ (u : Ticket). t.index ≤ u.index) ts
    → IsRedeemable c t
    → All (IsRedeemable c) ts
after_first e c t [] same of up r = tt
after_first e c t (u ∷ ts) same of up r =
    (ground (arith, same, of.0, up.0, r), after_first e c t ts same of.1 up.1 r)

-- In a queue of one epoch with ascending indices all unredeemable tickets come first.
kept-IsRedeemable :
    (e : ℕ) (c : ChannelEntry) (ts : List Ticket)
    → AreOf e ts
    → IsAscending ts
    → All (IsRedeemable c) (kept c ts)
kept-IsRedeemable e c [] of up = tt
kept-IsRedeemable e c (t ∷ ts) of up = elim (Bool-cases (is_unredeemable c t)) [
  | inl old ↦ rw (old, kept) (kept-IsRedeemable e c ts of.1 up.1)
  | inr fine ↦ rw (fine, kept) (fine, after_first e c t ts of.0 of.1 up.0 fine)
]

kept-AreOf : (e : ℕ) (c : ChannelEntry) (ts : List Ticket) → AreOf e ts → AreOf e (kept c ts)
kept-AreOf e c [] of = tt
kept-AreOf e c (t ∷ ts) of = elim (Bool-cases (is_unredeemable c t)) [
  | inl old ↦ rw (old, kept) (kept-AreOf e c ts of.1)
  | inr fine ↦ rw (fine, kept) of
]

total-kept : (c : ChannelEntry) (ts : List Ticket) → total amount (kept c ts) ≤ total amount ts
total-kept c [] = omega arith
total-kept c (t ∷ ts) = ground (arith, total-kept c ts)

module _ (api : HoprApi) {S : Type 0} (q : TicketQueue S) (lawful : IsTicketQueue api q) where
  open lawful use {contents, peek_lem, pop_lem, contents-pop}

  prune_lem :
      (fuel : ℕ) (c : ChannelEntry) (h : ℕ) (s : S) (ts : List Ticket)
      → length (contents h s) < fuel
      → (prune q fuel c h s).0 ≡ ok ts
      → (ts ≡ outdated c (contents h s))
        × (contents h (prune q fuel c h s).1 ≡ kept c (contents h s))
  unfolding prune
  prune_lem zero c h s ts lt e = absurd (omega arith)
  prune_lem (suc fuel) c h s ts lt e = elim (Result-cases (q.peek h s)) [
    | inr (x, p) ↦ ground (arith, p)
    | inl (none, p) ↦
        let empty = nil_of_head (contents h s) (peek_lem h s none p) in ground (arith, p, empty)
    | inl (some t, p) ↦
        let s' : S = (q.pop h s).1 in
        let split = cons_of_head t (contents h s) (peek_lem h s (some t) p) in
        elim (Bool-cases (is_unredeemable c t)) [
          | inr fine ↦ ground (arith, p, fine, split)
          | inl old ↦ elim (Result-cases (q.pop h s).0) [
            | inr (x, o) ↦ ground (arith, p, old, o)
            | inl (popped, o) ↦
                let it = pop_lem h s popped o in
                elim (Result-cases (prune q fuel c h s').0) [
                  | inr (x, r) ↦ ground (arith, p, old, o, r)
                  | inl (us, r) ↦
                      ground (
                        arith,
                        p,
                        old,
                        o,
                        r,
                        split,
                        it,
                        contents-pop h h s,
                        prune_lem fuel c h s' us,
                      )
                ]
          ]
        ]
  ]

module _ (api : HoprApi) {S : Type 0} (qs : TicketQueueStore S)
    (lawful : IsTicketQueue api qs.queue) where
  open lawful use {contents}

  -- A channel's entry in the manager `m`, fresh, with the tickets `left` queued.
  pub record Loaded (id : ℕ) (left : List Ticket) (m : HoprTicketManager S) : Type 0 where
    pub after : ChannelTicketQueue
    pub found : get id m.channel_tickets ≡ some after
    pub exact : IsCached api qs.queue lawful after.queue m.store
    pub queued : contents after.queue.queue m.store ≡ left
    pub redeemed : after.stats.redeemed_value ≡ 0
    pub neglected : after.stats.neglected_value ≡ 0
    pub rejected : after.stats.rejected_value ≡ 0
    pub lock : after.redeem_lock ≡ false

  -- If the tickets of a channel's queue are of one epoch, with indices in ascending order, and their
  -- amounts fit in a balance, then loading the channel, if it succeeds, takes off and returns the
  -- tickets at the front that are of an older epoch than the channel or below its ticket index, and
  -- leaves a fresh entry with an exact adapter and the rest of the tickets, which are all redeemable.
  -- The fuel is more than the number of tickets.
  pub load_channel_lem :
      (now fuel : ℕ) (c : ChannelEntry) (m : HoprTicketManager S) (h e : ℕ) (ts : List Ticket)
      → (qs.open_or_create_queue c.id m.store).0 ≡ ok h
      → AreOf e (contents h (qs.open_or_create_queue c.id m.store).1)
      → IsAscending (contents h (qs.open_or_create_queue c.id m.store).1)
      → length (contents h (qs.open_or_create_queue c.id m.store).1) < fuel
      → total amount (contents h (qs.open_or_create_queue c.id m.store).1) ≤ api.max_balance
      → (load_channel api now qs fuel c m).0 ≡ ok ts
      → let before = contents h (qs.open_or_create_queue c.id m.store).1 in
        (ts ≡ outdated c before)
        × Loaded c.id (kept c before) (load_channel api now qs fuel c m).1
        × All (IsRedeemable c) (kept c before)
  unfolding load_channel from_queue
  load_channel_lem now fuel c m h e ts o of up lt fits r =
      let s : S = (qs.open_or_create_queue c.id m.store).1 in
      let s' : S = (prune qs.queue fuel c h s).1 in
      elim (Result-cases (prune qs.queue fuel c h s).0) [
        | inr (x, p) ↦ ground (arith, o, p)
        | inl (us, p) ↦ elim (Result-cases (new api qs.queue h s')) [
          | inr (x, n) ↦ ground (arith, o, p, n)
          | inl (v, n) ↦ elim (Result-cases (qs.queue.len h s')) [
            | inr (x, l) ↦ ground (arith, o, p, n, l)
            | inl (count, l) ↦
                let (pruned, left) = prune_lem api qs.queue lawful fuel c h s us lt p in
                let (at, k) =
                  new-IsCached api qs.queue lawful h e s' v
                    (subst (AreOf e) (sym left) (kept-AreOf e c (contents h s) of))
                    (ground (arith, left, total-kept c (contents h s), fits)) n in
                rw (o, p, n, l, load_channel)
                  (
                    ground (arith, o, p, n, l, r, pruned),
                    record {
                      after = from_queue qs.queue v s';
                      found = get_put c.id _ m.channel_tickets;
                      exact = k;
                      queued = ground (arith, at, left);
                      redeemed = refl;
                      neglected = refl;
                      rejected = refl;
                      lock = refl;
                    },
                    kept-IsRedeemable e c (contents h s) of up,
                  )
          ]
        ]
      ]
