-- ===== src/Outcome.antt =====
-- What a call of the Go code ends in: a value, an `error`, or a panic of the Go runtime.
use goshire.Base.{ℤ}
use goshire.Text.{Str}

-- The errors that cheshire/protocol_bin.go returns, with what the message prints.
pub data Error : Type 0 where
  eof unexpected_eof negative_length bad_json write_failed : Error
  txn_status_too_large param_encoding_too_large content_encoding_too_large : ℤ → Error
  txn_accept_too_large method_too_large unsupported_param_encoding : ℤ → Error
  bad_txn_status bad_txn_accept bad_method : Str → Error

-- An index that is out of range, or `make` with a negative length.
pub data Fault : Type 0 where
  index_out_of_range makeslice : Fault

pub data Outcome {ℓ} (A : Type ℓ) : Type ℓ where
  ok : A → Outcome A
  err : Error → Outcome A
  panic : Fault → Outcome A
