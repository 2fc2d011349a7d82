-- ===== src/Errors/Laws.antt =====
-- How the errors of Shared/SharedProtocol.h add up.
use mathlib.Core.List.{append_assoc, append-nil}
use nat_data_collector.Prelude.{String, ◌≡◌, ◌≤◌, ◌||◌, false, [], arith, ◌↔◌}
use nat_data_collector.Types.{ErrorType, error_type_code}
use nat_data_collector.Errors.{Error, ErrorCode, no_error, add, failed, from_asio}

-- A sum is a failure exactly when one of its parts is.
pub failed-add : (a b : Error) → failed (add a b) ≡ (failed a || failed b)
unfolding add
failed-add a b = ground arith

worse : ErrorType → ErrorType → ErrorType
unfolding add
worse s t = (add (record { error = s; messages = [] }) (record { error = t; messages = [] })).error

worse_assoc : (s t u : ErrorType) → worse (worse s t) u ≡ worse s (worse t u)
unfolding worse
worse_assoc s t u = ground arith

add_assoc-error : (a b c : Error) → (add (add a b) c).error ≡ (add a (add b c)).error
unfolding worse add
add_assoc-error a b c = worse_assoc a.error b.error c.error

-- The order in which errors are gathered matters to the order of their messages only: sums may be
-- bracketed in any way, nothing is lost by adding the empty error on either side, and the type of
-- a sum is at least as severe as the type of each part.
pub add_monoid :
    (a b c : Error)
    → (add (add a b) c ≡ add a (add b c))
      × (add a no_error ≡ a)
      × (add no_error a ≡ a)
      × (error_type_code a.error ≤ error_type_code (add a b).error)
      × (error_type_code b.error ≤ error_type_code (add a b).error)
unfolding add
add_monoid a b c = (
  λ i. record {
    error = add_assoc-error a b c i;
    messages = append_assoc a.messages b.messages c.messages i;
  },
  ground (arith, append-nil a.messages),
  ground arith,
  ground arith,
  ground arith,
)

-- An asio outcome becomes a failure exactly when it is not success.
failed-from_asio :
    (ec : ErrorCode) (message context : String)
    → (failed (from_asio ec message context) ≡ false) ↔ (ec ≡ ErrorCode.success)
unfolding from_asio
failed-from_asio ec message context = ground arith
