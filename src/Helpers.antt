-- ===== src/Helpers.antt =====
-- cheshire/helpers.go: the responses to a transaction, and their way through Txn.Write of
-- cheshire/controllers.go. A transaction is its txn id here; `filters` are its filters.
use goshire.Base.{List, ℤ}
use goshire.Text.{Str}
use goshire.Strest.{Response, new_response}
use goshire.Strest.Json.{set_status}
use goshire.Handler.{Filter, txn_write}

-- NewResponse.
abbrev pub new_response_for : Str → Response
new_response_for txn_id = record new_response { txn_id = txn_id }

-- NewError.
abbrev pub new_error : Str → ℤ → Str → Response
new_error txn_id code message = set_status code message (new_response_for txn_id)

module _ {W R : Type 0} (filters : List (Filter W)) (write : Response → W → R × W)
    (txn_id : Str) where
  -- SendError.
  unfoldable pub send_error : ℤ → Str → W → R × W
  send_error code message w =
      let (c, r, w') = txn_write filters write (new_error txn_id code message) w in (c, w')

  -- SendSuccess.
  unfoldable pub send_success : W → W
  send_success w = let (c, r, w') = txn_write filters write (new_response_for txn_id) w in w'
