-- ===== src/HoprApi.antt =====
-- What the ticket manager uses of the crate `hopr_api`, which the repository does not contain.
-- Its structs are records of the fields that the code reads; `body` stands for the rest of a
-- ticket (challenge, signature, probability), so that two tickets may share channel, epoch and
-- index. Its constants and functions are the fields of `HoprApi`, an argument of the definitions
-- that use them, and `IsNatural` is the documented order of tickets (by epoch and index). A
-- `HoprBalance` is a number up to `max_balance`, and its arithmetic saturates, as the comments in
-- ticket-manager/src/backend/mod.rs and factory.rs say.
use hopr_impls.Base.{ℕ, ◌+◌, ◌-◌, ◌*◌, ◌≤◌, ◌<◌, min, ◌≡◌, ◌⊎◌, Bool, true, Option}

-- `RedeemableTicket`; its `VerifiedTicket` is the same data.
pub record Ticket : Type 0 where
  pub channel_id : ℕ
  pub channel_epoch : ℕ
  pub index : ℕ
  pub amount : ℕ
  pub body : ℕ

pub data ChannelStatus : Type 0 where
  closed open_channel : ChannelStatus
  pending_to_close : ℕ → ChannelStatus

pub record ChannelEntry : Type 0 where
  pub id : ℕ
  pub destination : ℕ
  pub balance : ℕ
  pub ticket_index : ℕ
  pub channel_epoch : ℕ
  pub status : ChannelStatus

abbrev pub is_open : ChannelStatus → Bool
is_open open_channel = Bool.true
is_open closed = Bool.false
is_open (pending_to_close _) = Bool.false

pub record HoprApi : Type 0 where
  -- `TicketBuilder::MAX_TICKET_INDEX`
  pub max_ticket_index : ℕ
  pub max_balance : ℕ
  -- `<=` and `==` of `RedeemableTicket`
  pub ticket_le : Ticket → Ticket → Bool
  pub ticket_eq : Ticket → Ticket → Bool
  -- `ChannelEntry::closure_time_passed`
  pub closure_time_passed : ChannelEntry → ℕ → Bool
  -- `U256::div_f64` by a winning probability
  pub div_f64 : ℕ → ℕ → Option ℕ

module _ (api : HoprApi) where
  abbrev pub balance_add : ℕ → ℕ → ℕ
  balance_add a b = min (a + b) api.max_balance

  abbrev pub balance_mul : ℕ → ℕ → ℕ
  balance_mul a b = min (a * b) api.max_balance

abbrev pub balance_sub : ℕ → ℕ → ℕ
balance_sub a b = a - b

-- Tickets of one channel are ordered by epoch, and within an epoch by index.
abbrev pub IsBefore : Ticket → Ticket → Type 0
IsBefore t u =
    (t.channel_epoch < u.channel_epoch)
    ⊎ ((t.channel_epoch ≡ u.channel_epoch) × (t.index ≤ u.index))

-- The order of tickets is total and transitive, and agrees with epoch and index.
pub record IsNatural (api : HoprApi) : Type 0 where
  pub total : (t u : Ticket) → (api.ticket_le t u ≡ true) ⊎ (api.ticket_le u t ≡ true)
  pub trans :
      (t u v : Ticket)
      → api.ticket_le t u ≡ true
      → api.ticket_le u v ≡ true
      → api.ticket_le t v ≡ true
  pub before :
      (t u : Ticket) → t.channel_id ≡ u.channel_id → api.ticket_le t u ≡ true → IsBefore t u
