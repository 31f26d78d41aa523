-- ===== src/Util/Error.antt =====
-- src/util/Error.h: status codes, statuses and results. A status message is one of the fixed texts
-- of the source. Exceptions, which the source throws as `std::runtime_error`, are values here.
use interchain_communication.Prelude.{ℕ, Bool, true, false, Option, String, Bytes}

pub data ErrorCode : Type 0 where
  ok timeout network_drop invalid_state serialization consensus_fault channel_closed not_found :
      ErrorCode
  cancelled unknown : ErrorCode

pub record Status : Type 0 where
  pub code : ErrorCode
  pub message : String

abbrev pub is_ok_code : ErrorCode → Bool
is_ok_code ErrorCode.ok = true
is_ok_code _ = false

abbrev pub is_invalid_state_code : ErrorCode → Bool
is_invalid_state_code ErrorCode.invalid_state = true
is_invalid_state_code _ = false

-- `Status::ok()`.
abbrev pub is_ok : Status → Bool
is_ok s = is_ok_code s.code

-- `code != ErrorCode::InvalidState`, negated.
abbrev pub is_invalid_state : Status → Bool
is_invalid_state s = is_invalid_state_code s.code

abbrev pub status : ErrorCode → String → Status
status c m = record { code = c; message = m }

-- `Result<T>`: a status beside an optional value.
pub record Result (A : Type 0) : Type 0 where
  pub status : Status
  pub value : Option A

-- What the program throws: by `deserializeIBCPacket` for a wrong number of parts and for a number
-- that does not read, by `std::stoi` and `std::stoull` themselves, by `deserializeNodeMessage`, by
-- the queue, while the simulation is set up, and by a log that cannot be opened.
pub data Exception : Type 0 where
  bad_parts : ℕ → Exception
  bad_packet bad_number malformed_message : Exception
  queue_closed queue_closed_empty : Exception
  endpoint_taken unknown_consensus : Exception
  open_failed : Bytes → Exception

pub data Outcome (A : Type 0) : Type 0 where
  returns : A → Outcome A
  throws : Exception → Outcome A
