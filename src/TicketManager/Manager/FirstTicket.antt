-- ===== src/TicketManager/Manager/FirstTicket.antt =====
-- `insert_incoming_ticket` for a channel without an entry.
use hopr_impls.Base.{
  ℕ, ◌≤◌, ◌≡◌, refl, sym, subst, false, List, [], ◌∷◌, ok, arith, length, Result-cases, inl, inr,
  none, some,
}
use hopr_impls.Base.Keyed.{nat_key, get}
use hopr_impls.HoprApi.{HoprApi, Ticket}
use hopr_impls.TicketManager.Queue.Traits.{TicketQueueStore, IsTicketQueue, place, is_empty}
use hopr_impls.TicketManager.Queue.Cached.{ValueCachedQueue, new, push}
use hopr_impls.TicketManager.Queue.Value.{AreOf, IsCached, push-IsCached}
use hopr_impls.TicketManager.Queue.Reads.{new-IsCached, new-queue}
use hopr_impls.TicketManager.Manager.State.{ChannelTicketQueue, HoprTicketManager, from_queue}
use hopr_impls.TicketManager.Manager.Insert.{open_empty, insert_vacant, insert_incoming_ticket}
use hopr_impls.TicketManager.Manager.Expected.{get_put}

length-eq-zero : (ts : List Ticket) → 0 ≡ length ts → ts ≡ []
length-eq-zero [] h = refl
length-eq-zero (t ∷ ts) h = absurd (omega arith)

module _ (api : HoprApi) {S : Type 0} (qs : TicketQueueStore S)
    (lawful : IsTicketQueue api qs.queue) where
  open lawful use {contents, len_lem}

  open_empty_lem :
      (h : ℕ) (s : S) (v : ValueCachedQueue)
      → open_empty api qs h s ≡ ok v
      → IsCached api qs.queue lawful v s × (contents v.queue s ≡ [])
  unfolding open_empty is_empty
  open_empty_lem h s v e = elim (Result-cases (new api qs.queue h s)) [
    | inr (x, p) ↦ ground (arith, p)
    | inl (w, p) ↦ elim (Result-cases (qs.len w.queue s)) [
      | inr (x, l) ↦ ground (arith, p, l)
      | inl (n, l) ↦
          let zero_left : n ≡ 0 = ground (arith, p, l) in
          let same : w ≡ v = ground (arith, p, l) in
          let handle : w.queue ≡ h = new-queue api qs.queue h s w p in
          let empty : contents h s ≡ [] =
            length-eq-zero (contents h s)
              (ground (arith, len_lem w.queue s n l, zero_left, handle)) in
          let (at, k) =
            new-IsCached api qs.queue lawful h 0 s v (subst (AreOf 0) (sym empty) tt)
              (ground (arith, empty)) (ground (arith, p, same)) in
          (k, ground (arith, empty, at))
    ]
  ]

  -- The first ticket of a channel without an entry: an insertion that succeeds neglects nothing and
  -- leaves an entry with an exact adapter, the ticket alone in its queue, nothing redeemed,
  -- neglected or rejected, and the redeem lock free.
  pub insert_incoming_ticket-vacant :
      (fuel : ℕ) (t : Ticket) (m : HoprTicketManager S) (got : List Ticket)
      → t.amount ≤ api.max_balance
      → get t.channel_id m.channel_tickets ≡ none
      → (insert_incoming_ticket api qs fuel t m).0 ≡ ok got
      → let m' = (insert_incoming_ticket api qs fuel t m).1 in
        (got ≡ [])
        × (after : ChannelTicketQueue) × (get t.channel_id m'.channel_tickets ≡ some after)
        × IsCached api qs.queue lawful after.queue m'.store
        × (contents after.queue.queue m'.store ≡ t ∷ [])
        × (after.stats.neglected_value ≡ 0)
        × (after.stats.redeemed_value ≡ 0)
        × (after.stats.rejected_value ≡ 0)
        × (after.redeem_lock ≡ false)
  unfolding insert_incoming_ticket insert_vacant from_queue place
  insert_incoming_ticket-vacant fuel t m got fits g h =
      let s : S = (qs.open_or_create_queue t.channel_id m.store).1 in
      elim (Result-cases (qs.open_or_create_queue t.channel_id m.store).0) [
        | inr (x, p) ↦ ground (arith, p, g)
        | inl (handle, p) ↦ elim (Result-cases (open_empty api qs handle s)) [
          | inr (x, o) ↦ ground (arith, p, g, o)
          | inl (v, o) ↦
              let (k, empty) = open_empty_lem handle s v o in
              elim (Result-cases (push api qs.queue v t s).0) [
                | inr (x, r) ↦ ground (arith, p, g, o, r)
                | inl (done, r) ↦
                    let (kept, placed) =
                      push-IsCached api qs.queue lawful v t s k
                        (subst (AreOf t.channel_epoch) (sym empty) tt) (ground (arith, empty))
                        (ground (arith, r)) in
                    rw (g, p, o, r, insert_incoming_ticket, insert_vacant)
                      (
                        ground (arith, p, g, o, r, h),
                        from_queue qs.queue (push api qs.queue v t s).1 (push api qs.queue v t s).2,
                        get_put t.channel_id _ m.channel_tickets,
                        kept,
                        ground (arith, placed, empty),
                        refl,
                        refl,
                        refl,
                        refl,
                      )
              ]
        ]
      ]
