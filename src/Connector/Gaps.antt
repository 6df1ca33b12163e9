-- ===== src/Connector/Gaps.antt =====
-- A gap between a signer's nonce and the chain is closed.
use hopr_impls.Base.{
  ℕ, ◌+◌, ◌-◌, ◌≤◌, ◌≡◌, ◌≢◌, refl, ◌∙◌, ap, Bool, true, false, Option, none, some, List, [], ◌∷◌,
  All, arith, inl, inr, Bool-cases, if_lem, leb, ◌==◌,
}
use hopr_impls.Base.Keyed.{nat_key, get, get-insert, get-remove}
use hopr_impls.Connector.Sequencer.{
  Sequencer, Submission, query_failed, signing_failed, submitted, or_zero, gap_age, nonce_gap_age,
  sync_nonce, is_stale, nonce_for, synced, sequence, nonce_consumed, record_id, settle_nonce,
  nonce_of, gap_of, id_of, forget, Event, handled, dropped, run,
}

gap_age-other :
    (now q signer pending : ℕ) (held : Option (ℕ × ℕ)) (gaps : List (ℕ × (ℕ × ℕ)))
    → signer ≢ q
    → get q (gap_age now signer pending held gaps).1 ≡ get q gaps
gap_age-other now q signer pending none gaps n =
    ground (arith, n, get-insert signer q (pending, now) gaps)
gap_age-other now q signer pending (some (gap_pending, since)) gaps n =
    if_lem (λ (r : ℕ × List (ℕ × (ℕ × ℕ))). get q r.1 ≡ get q gaps) (gap_pending == pending)
      (λ _. refl) (λ _. ground (arith, n, get-insert signer q (pending, now) gaps))

nonce_gap_age-other :
    (now q signer local pending : ℕ) (gaps : List (ℕ × (ℕ × ℕ)))
    → signer ≢ q
    → get q (nonce_gap_age now signer local pending gaps).1 ≡ get q gaps
unfolding nonce_gap_age
nonce_gap_age-other now q signer local pending gaps n =
    if_lem (λ (r : Option ℕ × List (ℕ × (ℕ × ℕ))). get q r.1 ≡ get q gaps) (leb local pending)
      (λ _. ground (arith, n, get-remove signer q gaps))
      (λ _. gap_age-other now q signer pending (get signer gaps) gaps n)

sync_nonce-other :
    (tolerance now q signer local pending : ℕ) (gaps : List (ℕ × (ℕ × ℕ)))
    → signer ≢ q
    → get q (sync_nonce tolerance now signer local pending gaps).1 ≡ get q gaps
unfolding sync_nonce
sync_nonce-other tolerance now q signer local pending gaps n =
    let (age, gaps') = nonce_gap_age now signer local pending gaps in
    let same : get q gaps' ≡ get q gaps = nonce_gap_age-other now q signer local pending gaps n in
    if_lem (λ (r : ℕ × List (ℕ × (ℕ × ℕ))). get q r.1 ≡ get q gaps) (is_stale tolerance age)
      (λ _. ground (arith, n, get-remove signer q gaps', same)) (λ _. same)

settle_nonce-gaps :
    (signer : ℕ) (consumed : Option Bool) (s : Sequencer)
    → (settle_nonce signer consumed s).nonce_gaps ≡ s.nonce_gaps
settle_nonce-gaps signer none s = refl
settle_nonce-gaps signer (some true) s = refl
settle_nonce-gaps signer (some false) s = refl

sequence-other :
    (tolerance now q signer : ℕ) (x : Submission) (s : Sequencer)
    → signer ≢ q
    → get q (sequence tolerance now signer x s).nonce_gaps ≡ get q s.nonce_gaps
unfolding sequence synced
sequence-other tolerance now q signer query_failed s n = refl
sequence-other tolerance now q signer (signing_failed pending) s n =
    sync_nonce-other tolerance now q signer (or_zero (get signer s.current_nonce)) pending
      s.nonce_gaps n
sequence-other tolerance now q signer (submitted pending result) s n =
    let s' = synced tolerance now signer pending s in
    let (deduplicated, issued) = record_id result s'.issued_tx_ids in
    ap (get q) (
      settle_nonce-gaps signer (nonce_consumed result deduplicated)
        (record s' { issued_tx_ids = issued }))
    ∙ sync_nonce-other tolerance now q signer (or_zero (get signer s.current_nonce)) pending
        s.nonce_gaps n

-- The event neither handles a transaction of the signer nor drops its gap.
abbrev pub IsElsewhere : ℕ → Event → Type 0
IsElsewhere q (handled now signer x) = signer ≢ q
IsElsewhere q (dropped (nonce_of signer)) = Unit
IsElsewhere q (dropped (gap_of signer)) = signer ≢ q
IsElsewhere q (dropped (id_of id)) = Unit

run-gap :
    (tolerance q : ℕ) (es : List Event) (s : Sequencer)
    → All (IsElsewhere q) es
    → get q (run tolerance es s).nonce_gaps ≡ get q s.nonce_gaps
unfolding run forget
run-gap tolerance q [] s k = refl
run-gap tolerance q (handled now signer x ∷ es) s k =
    run-gap tolerance q es (sequence tolerance now signer x s) k.1
    ∙ sequence-other tolerance now q signer x s k.0
run-gap tolerance q (dropped (nonce_of signer) ∷ es) s k =
    run-gap tolerance q es (forget (nonce_of signer) s) k.1
run-gap tolerance q (dropped (gap_of signer) ∷ es) s k =
    run-gap tolerance q es (forget (gap_of signer) s) k.1
    ∙ ground (arith, k.0, get-remove signer q s.nonce_gaps)
run-gap tolerance q (dropped (id_of id) ∷ es) s k = run-gap tolerance q es (forget (id_of id) s) k.1

stale_lem :
    (tolerance now signer local pending since : ℕ) (gaps : List (ℕ × (ℕ × ℕ)))
    → get signer gaps ≡ some (pending, since)
    → since + tolerance ≤ now
    → (sync_nonce tolerance now signer local pending gaps).0 ≡ pending
unfolding sync_nonce nonce_gap_age
stale_lem tolerance now signer local pending since gaps h late =
    elim (Bool-cases (leb local pending)) [
      | inl e ↦ rw e (ground (arith, e))
      | inr e ↦
          let age : gap_age now signer pending (get signer gaps) gaps ≡ (now - since, gaps) =
            ground (arith, h) in
          rw (e, age) (ground (arith, late))
    ]

-- Once a signer's nonce has been noted ahead of a pending count, its first transaction after the
-- tolerance is over is signed with the pending count, if this is still the same, whatever happened
-- to other signers in between.
pub gap_closed :
    (tolerance now signer pending since : ℕ) (es : List Event) (s : Sequencer)
    → get signer s.nonce_gaps ≡ some (pending, since)
    → All (IsElsewhere signer) es
    → since + tolerance ≤ now
    → nonce_for tolerance now signer pending (run tolerance es s) ≡ pending
gap_closed tolerance now signer pending since es s h k late =
    let s' = run tolerance es s in
    stale_lem tolerance now signer (or_zero (get signer s'.current_nonce)) pending since
      s'.nonce_gaps (run-gap tolerance signer es s k ∙ h) late
