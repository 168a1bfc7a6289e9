-- ===== src/Errors/Statuses.antt =====
-- What a client learns of an error: its status and its message.
use flowpanel.Base.{String, ◌≡◌, refl, ◌≤◌, arith}
use flowpanel.Errors.{ErrorCode, Thrown, known, js_error, non_error, error_status}
use flowpanel.Errors.{error_code, error_result, thrown_status}

error_status-bounds : (c : ErrorCode) → (400 ≤ error_status c) × (error_status c ≤ 500)
unfolding error_status
error_status-bounds c = ground arith

-- The status of a response is the one of the code in its body, whatever was thrown, and it is an
-- error status between 400 and 500.
pub thrown_status-error_result :
    (t : Thrown) (id : String)
    → (thrown_status t ≡ error_status (error_result t id).code)
      × (400 ≤ thrown_status t)
      × (thrown_status t ≤ 500)
unfolding thrown_status error_result error_status
thrown_status-error_result (known e) id =
    (refl, (error_status-bounds (error_code e)).0, (error_status-bounds (error_code e)).1)
thrown_status-error_result (js_error o m) id = (refl, omega arith, omega arith)
thrown_status-error_result (non_error v) id = (refl, omega arith, omega arith)
