-- ===== src/TicketManager/Errors.antt =====
-- ticket-manager/src/errors.rs. The text of a message is left out; `Cause` says which message it
-- is, and a backend's error is an opaque number.
use hopr_impls.Base.{ℕ}

pub data Cause : Type 0 where
  backend : ℕ → Cause
  failed_to_save : ℕ → Cause
  path_position_one channel_not_open invalid_winning_probability queue_not_empty : Cause

pub data TicketManagerError : Type 0 where
  channel_queue_not_found already_redeeming : TicketManagerError
  out_of_funds : (channel_id amount : ℕ) → TicketManagerError
  redeem_error store_error other : Cause → TicketManagerError
