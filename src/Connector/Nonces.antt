-- ===== src/Connector/Nonces.antt =====
-- Which nonces the sequencer signs with.
use hopr_impls.Base.{
  ℕ, ◌-◌, ◌≤◌, ◌<◌, max, ◌≡◌, ◌≢◌, refl, ◌∙◌, ap, Bool, true, false, not, Option, none, some, List,
  [], ◌∷◌, Result, ok, err, All, arith, inl, inr, Bool-cases, if_lem, leb, ◌==◌,
}
use hopr_impls.Base.Keyed.{nat_key, get, get-insert, get-remove}
use hopr_impls.Connector.Sequencer.{
  Sequencer, SubmitError, Submission, query_failed, signing_failed, submitted, gap_age,
  nonce_gap_age, sync_nonce, nonce_for, synced, sequence, nonce_consumed, record_id, settle_nonce,
  contains, record_issued_tx_id, nonce_of, gap_of, id_of, forget, Event, handled, dropped, run,
}

-- The bounds of a nonce, and the gap that is noted beside it: a nonce is not below the pending
-- count, and above it only while the count has stood for less than the tolerance.
abbrev pub IsBounded : (tolerance now signer local pending : ℕ) → ℕ × List (ℕ × (ℕ × ℕ)) → Type 0
IsBounded tolerance now signer local pending (nonce, gaps) =
    (pending ≤ nonce)
    × (nonce ≤ max local pending)
    × (pending < nonce
        → (since : ℕ) × (get signer gaps ≡ some (pending, since)) × (now - since < tolerance))

gap_age_lem :
    (now signer pending : ℕ) (held : Option (ℕ × ℕ)) (gaps : List (ℕ × (ℕ × ℕ)))
    → get signer gaps ≡ held
    → let (age, gaps') = gap_age now signer pending held gaps in
      (since : ℕ) × (get signer gaps' ≡ some (pending, since)) × (now - since ≡ age)
gap_age_lem now signer pending none gaps h =
    (now, ground (arith, get-insert signer signer (pending, now) gaps), omega arith)
gap_age_lem now signer pending (some (gap_pending, since)) gaps h =
    if_lem
      (λ (r : ℕ × List (ℕ × (ℕ × ℕ))).
        (since' : ℕ) × (get signer r.1 ≡ some (pending, since')) × (now - since' ≡ r.0))
      (gap_pending == pending) (λ e. (since, ground (arith, h, e), refl))
      (λ _. (now, ground (arith, get-insert signer signer (pending, now) gaps), omega arith))

-- However the local nonce and the pending count stand, the nonce to sign with is not below the
-- pending count and not above the greater of the two. It is above the pending count only if that
-- count has been noted with a time since when, which is less than the tolerance ago.
pub sync_nonce-IsBounded :
    (tolerance now signer local pending : ℕ) (gaps : List (ℕ × (ℕ × ℕ)))
    → IsBounded tolerance now signer local pending
        (sync_nonce tolerance now signer local pending gaps)
unfolding sync_nonce nonce_gap_age
sync_nonce-IsBounded tolerance now signer local pending gaps =
    elim (Bool-cases (leb local pending)) [
      | inl e ↦ rw e (ground (arith, e))
      | inr e ↦
          let (since, held, age) = gap_age_lem now signer pending (get signer gaps) gaps refl in
          rw e (
            if_lem (IsBounded tolerance now signer local pending)
              (leb tolerance (gap_age now signer pending (get signer gaps) gaps).0)
              (λ _. ground arith)
              (λ c. (omega arith, omega arith, λ _. (since, held, ground (arith, age, c)))))
    ]

-- The tracking id has been handed out and is remembered.
abbrev pub IsIssued : ℕ → Sequencer → Type 0
IsIssued id s = contains id s.issued_tx_ids ≡ true

record_id-contains :
    (id : ℕ) (result : Result SubmitError ℕ) (issued : List (ℕ × Unit {0}))
    → contains id issued ≡ true
    → contains id (record_id result issued).1 ≡ true
unfolding record_issued_tx_id
record_id-contains id (err e) issued h = h
record_id-contains id (ok id') issued h =
    if_lem (λ (r : Bool × List (ℕ × Unit {0})). contains id r.1 ≡ true) (contains id' issued)
      (λ _. h) (λ _. ground (arith, h, get-insert id' id tt issued))

settle_nonce-issued :
    (signer : ℕ) (consumed : Option Bool) (s : Sequencer)
    → (settle_nonce signer consumed s).issued_tx_ids ≡ s.issued_tx_ids
settle_nonce-issued signer none s = refl
settle_nonce-issued signer (some true) s = refl
settle_nonce-issued signer (some false) s = refl

sequence-IsIssued :
    (tolerance now signer id : ℕ) (x : Submission) (s : Sequencer)
    → IsIssued id s
    → IsIssued id (sequence tolerance now signer x s)
unfolding sequence synced
sequence-IsIssued tolerance now signer id query_failed s h = h
sequence-IsIssued tolerance now signer id (signing_failed pending) s h = h
sequence-IsIssued tolerance now signer id (submitted pending result) s h =
    let s' = synced tolerance now signer pending s in
    let (deduplicated, issued) = record_id result s'.issued_tx_ids in
    ap (contains id) (
      settle_nonce-issued signer (nonce_consumed result deduplicated)
        (record s' { issued_tx_ids = issued }))
    ∙ record_id-contains id result s.issued_tx_ids h

-- The event does not drop the tracking id.
abbrev pub IsKept : ℕ → Event → Type 0
IsKept id (handled now signer x) = Unit
IsKept id (dropped (nonce_of signer)) = Unit
IsKept id (dropped (gap_of signer)) = Unit
IsKept id (dropped (id_of id')) = id' ≢ id

run-IsIssued :
    (tolerance id : ℕ) (es : List Event) (s : Sequencer)
    → All (IsKept id) es
    → IsIssued id s
    → IsIssued id (run tolerance es s)
unfolding run forget
run-IsIssued tolerance id [] s k h = h
run-IsIssued tolerance id (handled now signer x ∷ es) s k h =
    run-IsIssued tolerance id es (sequence tolerance now signer x s) k.1
      (sequence-IsIssued tolerance now signer id x s h)
run-IsIssued tolerance id (dropped (nonce_of signer) ∷ es) s k h =
    run-IsIssued tolerance id es (forget (nonce_of signer) s) k.1 h
run-IsIssued tolerance id (dropped (gap_of signer) ∷ es) s k h =
    run-IsIssued tolerance id es (forget (gap_of signer) s) k.1 h
run-IsIssued tolerance id (dropped (id_of id') ∷ es) s k h =
    run-IsIssued tolerance id es (forget (id_of id') s) k.1
      (ground (arith, h, k.0, get-remove id' id s.issued_tx_ids))

accepted-IsIssued :
    (tolerance now signer pending id : ℕ) (s : Sequencer)
    → IsIssued id (sequence tolerance now signer (submitted pending (ok id)) s)
unfolding sequence synced record_issued_tx_id
accepted-IsIssued tolerance now signer pending id s =
    let s' = synced tolerance now signer pending s in
    let (fresh, issued) = record_issued_tx_id id s.issued_tx_ids in
    ap (contains id) (
      settle_nonce-issued signer (nonce_consumed (ok id) (not fresh))
        (record s' { issued_tx_ids = issued }))
    ∙ if_lem (λ (r : Bool × List (ℕ × Unit {0})). contains id r.1 ≡ true)
        (contains id s.issued_tx_ids) (λ h. h)
        (λ _. ground (arith, get-insert id id tt s.issued_tx_ids))

seen_lem :
    (id : ℕ) (issued : List (ℕ × Unit {0}))
    → contains id issued ≡ true
    → (record_issued_tx_id id issued).0 ≡ false
unfolding record_issued_tx_id
seen_lem id issued h =
    if_lem (λ (r : Bool × List (ℕ × Unit {0})). r.0 ≡ false) (contains id issued) (λ _. refl)
      (λ e. ground (arith, h, e))

deduplicated_lem :
    (tolerance now signer pending id : ℕ) (s : Sequencer)
    → IsIssued id s
    → get signer (sequence tolerance now signer (submitted pending (ok id)) s).current_nonce
      ≡ some (nonce_for tolerance now signer pending s)
unfolding sequence synced nonce_consumed
deduplicated_lem tolerance now signer pending id s h =
    let nonce = nonce_for tolerance now signer pending s in
    let s' = synced tolerance now signer pending s in
    let issued = (record_issued_tx_id id s.issued_tx_ids).1 in
    ap
      (λ b.
        get signer
          (settle_nonce signer (some (not (not b)))
            (record s' { issued_tx_ids = issued })).current_nonce)
      (seen_lem id s.issued_tx_ids h)
    ∙ ground (arith, get-insert signer signer nonce s.current_nonce)

-- A transaction is accepted with a tracking id, and after any events that do not drop the id another
-- one, of any signer, is answered with the same id: it has used up no nonce, and its signer's nonce
-- is the one that it was signed with.
pub deduplicated-nonce :
    (tolerance now signer pending id now' signer' pending' : ℕ) (es : List Event) (s : Sequencer)
    → All (IsKept id) es
    → let before = run tolerance es (sequence tolerance now signer (submitted pending (ok id)) s) in
      get signer'
        (sequence tolerance now' signer' (submitted pending' (ok id)) before).current_nonce
      ≡ some (nonce_for tolerance now' signer' pending' before)
deduplicated-nonce tolerance now signer pending id now' signer' pending' es s k =
    let accepted = sequence tolerance now signer (submitted pending (ok id)) s in
    deduplicated_lem tolerance now' signer' pending' id (run tolerance es accepted) (
      run-IsIssued tolerance id es accepted k (accepted-IsIssued tolerance now signer pending id s))
