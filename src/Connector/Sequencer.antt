-- ===== src/Connector/Sequencer.antt =====
-- connector/src/connector/sequencer.rs: the loop of `TransactionSequencer` over queued transactions,
-- one at a time. A signer and a tracking id are numbers, a nonce is a number below 2 ^ 64, and the
-- time at which a transaction is handled is an argument, `now`. The caches are association lists;
-- what a cache drops on its own it drops between two transactions, as a step `forget`.
use hopr_impls.Base.{
  ℕ, ◌+◌, ◌-◌, ◌%◌, ◌^◌, max, Bool, true, false, not, Option, none, some, List, [], ◌∷◌, Result, ok,
  err, if◌then◌else◌, leb, ◌==◌,
}
use hopr_impls.Base.Keyed.{nat_key, get, insert, remove}

pub record Sequencer : Type 0 where
  pub current_nonce : List (ℕ × ℕ)
  -- the pending count that a signer's nonce is ahead of, and since when
  pub nonce_gaps : List (ℕ × (ℕ × ℕ))
  pub issued_tx_ids : List (ℕ × Unit {0})

-- `TransactionSequencer::new`
abbrev pub new : Sequencer
new = record { current_nonce = []; nonce_gaps = []; issued_tx_ids = [] }

-- The codes that `rpc_rejection_code` tells apart.
pub data RejectionCode : Type 0 where
  nonce_too_low replacement_underpriced fee_too_low insufficient_funds other_code : RejectionCode

-- What the error of a submission tells: `is_refused_before_broadcast` and `rpc_rejection_code`.
pub record SubmitError : Type 0 where
  pub is_refused_before_broadcast : Bool
  pub rpc_rejection_code : Option RejectionCode

-- How far a transaction gets: a query fails, the signing fails once the pending count is known, or
-- the submission returns.
pub data Submission : Type 0 where
  query_failed : Submission
  signing_failed : (pending : ℕ) → Submission
  submitted : (pending : ℕ) → Result SubmitError ℕ → Submission

abbrev pub or_zero : Option ℕ → ℕ
or_zero none = 0
or_zero (some nonce) = nonce

-- `nonce_gap_age`, for a nonce that is ahead of the pending count
abbrev pub gap_age :
    (now signer pending : ℕ) → Option (ℕ × ℕ) → List (ℕ × (ℕ × ℕ)) → ℕ × List (ℕ × (ℕ × ℕ))
gap_age now signer pending none gaps = (0, insert signer (pending, now) gaps)
gap_age now signer pending (some (gap_pending, since)) gaps =
    if gap_pending == pending then (now - since, gaps) else (0, insert signer (pending, now) gaps)

unfoldable pub nonce_gap_age :
    (now signer local pending : ℕ) → List (ℕ × (ℕ × ℕ)) → Option ℕ × List (ℕ × (ℕ × ℕ))
nonce_gap_age now signer local pending gaps =
    if leb local pending
    then (none, remove signer gaps)
    else (let (age, gaps') = gap_age now signer pending (get signer gaps) gaps in (some age, gaps'))

abbrev pub is_stale : (tolerance : ℕ) → Option ℕ → Bool
is_stale tolerance none = false
is_stale tolerance (some age) = leb tolerance age

-- The nonce to sign with, and the gaps after it; the local nonce is that nonce, too.
unfoldable pub sync_nonce :
    (tolerance now signer local pending : ℕ) → List (ℕ × (ℕ × ℕ)) → ℕ × List (ℕ × (ℕ × ℕ))
sync_nonce tolerance now signer local pending gaps =
    let (age, gaps') = nonce_gap_age now signer local pending gaps in
    if is_stale tolerance age then (pending, remove signer gaps') else (max local pending, gaps')

abbrev pub contains : ℕ → List (ℕ × Unit {0}) → Bool
contains id issued = elim (get id issued) [ none ↦ false | some u ↦ true ]

unfoldable pub record_issued_tx_id : ℕ → List (ℕ × Unit {0}) → Bool × List (ℕ × Unit {0})
record_issued_tx_id id issued =
    if contains id issued then (false, issued) else (true, insert id tt issued)

abbrev pub code_consumes : Option RejectionCode → Option Bool
code_consumes (some nonce_too_low) = some true
code_consumes (some replacement_underpriced) = some true
code_consumes (some fee_too_low) = some false
code_consumes (some insufficient_funds) = some false
code_consumes (some other_code) = none
code_consumes none = none

-- `nonce_consumed`, for a transaction that reached the server
unfoldable pub nonce_consumed : Result SubmitError ℕ → (deduplicated : Bool) → Option Bool
nonce_consumed (ok id) deduplicated = some (not deduplicated)
nonce_consumed (err e) deduplicated =
    if e.is_refused_before_broadcast then some false else code_consumes e.rpc_rejection_code

-- The check of a tracking id against those handed out before.
abbrev pub record_id : Result SubmitError ℕ → List (ℕ × Unit {0}) → Bool × List (ℕ × Unit {0})
record_id (ok id) issued =
    let (fresh, issued') = record_issued_tx_id id issued in (not fresh, issued')
record_id (err e) issued = (false, issued)

abbrev pub settle_nonce : (signer : ℕ) → Option Bool → Sequencer → Sequencer
settle_nonce signer none s = record s { current_nonce = remove signer s.current_nonce }
settle_nonce signer (some false) s = s
settle_nonce signer (some true) s = record s {
  current_nonce =
      insert signer ((or_zero (get signer s.current_nonce) + 1) % 2 ^ 64) s.current_nonce;
}

-- The nonce of a transaction whose pending count is known.
abbrev pub nonce_for : (tolerance now signer pending : ℕ) → Sequencer → ℕ
nonce_for tolerance now signer pending s =
    (sync_nonce tolerance now signer (or_zero (get signer s.current_nonce)) pending s.nonce_gaps).0

unfoldable pub synced : (tolerance now signer pending : ℕ) → Sequencer → Sequencer
synced tolerance now signer pending s =
    let (nonce, gaps) =
      sync_nonce tolerance now signer (or_zero (get signer s.current_nonce)) pending s.nonce_gaps in
    record s { current_nonce = insert signer nonce s.current_nonce; nonce_gaps = gaps }

unfoldable pub sequence : (tolerance now signer : ℕ) → Submission → Sequencer → Sequencer
sequence tolerance now signer query_failed s = s
sequence tolerance now signer (signing_failed pending) s = synced tolerance now signer pending s
sequence tolerance now signer (submitted pending result) s =
    let s' = synced tolerance now signer pending s in
    let (deduplicated, issued) = record_id result s'.issued_tx_ids in
    settle_nonce signer (nonce_consumed result deduplicated) (record s' { issued_tx_ids = issued })

-- An entry that a cache has dropped.
pub data Forgotten : Type 0 where
  nonce_of gap_of id_of : ℕ → Forgotten

unfoldable pub forget : Forgotten → Sequencer → Sequencer
forget (nonce_of signer) s = record s { current_nonce = remove signer s.current_nonce }
forget (gap_of signer) s = record s { nonce_gaps = remove signer s.nonce_gaps }
forget (id_of id) s = record s { issued_tx_ids = remove id s.issued_tx_ids }

-- What happens to the sequencer: a transaction of a signer is handled, or a cache drops an entry.
pub data Event : Type 0 where
  handled : (now signer : ℕ) → Submission → Event
  dropped : Forgotten → Event

unfoldable pub run : (tolerance : ℕ) → List Event → Sequencer → Sequencer
run tolerance [] s = s
run tolerance (handled now signer x ∷ es) s = run tolerance es (sequence tolerance now signer x s)
run tolerance (dropped entry ∷ es) s = run tolerance es (forget entry s)
