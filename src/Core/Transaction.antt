-- ===== src/Core/Transaction.antt =====
-- src/core/Transaction.h.
use interchain_communication.Prelude.{
  ℕ, zero, suc, ◌++◌, ◌∷◌, Bytes, codes, String, ℤ, pos, negsuc, incr64,
}
use interchain_communication.Util.Decimal.{to_string}

-- `other` is a value of the underlying `int` with no name.
pub data TxType : Type 0 where
  regular ibc_packet ibc_ack unknown : TxType
  other : ℤ → TxType

-- `static_cast` between `TxType` and `int`.
unfoldable pub of_int : ℤ → TxType
of_int (pos zero) = regular
of_int (pos (suc zero)) = ibc_packet
of_int (pos (suc (suc zero))) = ibc_ack
of_int (pos (suc (suc (suc zero)))) = unknown
of_int (pos (suc (suc (suc (suc n))))) = other (pos (suc (suc (suc (suc n)))))
of_int (negsuc n) = other (negsuc n)

unfoldable pub to_int : TxType → ℤ
to_int regular = pos 0
to_int ibc_packet = pos 1
to_int ibc_ack = pos 2
to_int unknown = pos 3
to_int (other z) = z

unfoldable pub tx_type_to_string : TxType → String
tx_type_to_string regular = "regular"
tx_type_to_string ibc_packet = "ibc_packet"
tx_type_to_string ibc_ack = "ibc_ack"
tx_type_to_string unknown = "unknown"
tx_type_to_string (other z) = "unknown"

pub record Transaction : Type 0 where
  pub from : Bytes
  pub to : Bytes
  pub payload : Bytes
  pub type : TxType
  pub tx_id : Bytes

-- The counter behind the call, and the id; `now` is the clock's reading.
unfoldable pub generate_tx_id : ℕ → ℕ → ℕ × Bytes
generate_tx_id counter now =
    (incr64 counter, codes "tx_" ++ (to_string now ++ (b'_' ∷ to_string counter)))
