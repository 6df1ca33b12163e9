-- ===== src/Connector/Tests.antt =====
-- The sequencer at concrete inputs: a signer 7 whose transactions are tracked as 40 and 41.
use hopr_impls.Base.{◌≡◌, refl, some, List, [], ◌∷◌, ok, arith}
use hopr_impls.Base.Keyed.{nat_key, get}
use hopr_impls.Connector.Sequencer.{
  Sequencer, new, submitted, nonce_for, sync_nonce, sequence, nonce_of, Event, handled, dropped,
  run,
}
use hopr_impls.Connector.Gaps.{gap_closed}
use hopr_impls.Connector.Nonces.{IsBounded, sync_nonce-IsBounded, deduplicated-nonce}

sync_nonce-IsBounded_example : IsBounded 60 90 7 5 3 (sync_nonce 60 90 7 5 3 ((7, (3, 50)) ∷ []))
sync_nonce-IsBounded_example = sync_nonce-IsBounded 60 90 7 5 3 ((7, (3, 50)) ∷ [])

abbrev events : List Event
events = handled 20 7 (submitted 3 (ok 41)) ∷ dropped (nonce_of 8) ∷ []

deduplicated-nonce_example :
    let before = run 60 events (sequence 60 10 7 (submitted 3 (ok 40)) new) in
    get 7 (sequence 60 30 7 (submitted 3 (ok 40)) before).current_nonce
    ≡ some (nonce_for 60 30 7 3 before)
deduplicated-nonce_example = deduplicated-nonce 60 10 7 3 40 30 7 3 events new (tt, (tt, tt))

abbrev ahead : Sequencer
ahead = record { current_nonce = (7, 5) ∷ []; nonce_gaps = (7, (3, 50)) ∷ []; issued_tx_ids = [] }

abbrev elsewhere : List Event
elsewhere = handled 60 8 (submitted 2 (ok 42)) ∷ dropped (nonce_of 7) ∷ []

gap_closed_example : nonce_for 60 120 7 3 (run 60 elsewhere ahead) ≡ 3
unfolding get
gap_closed_example =
    gap_closed 60 120 7 3 50 elsewhere ahead refl ((λ e. omega (arith, e)), (tt, tt)) (omega arith)
