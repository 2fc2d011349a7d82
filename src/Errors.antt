-- ===== src/Errors.antt =====
-- shared::Error of Shared/SharedProtocol.h.
pub mod Laws
use Prim.Native.String.{◌++◌ as append}
use nat_data_collector.Prelude.{String, Bool, true, false, List, [], ◌∷◌, ◌++◌, ltb, if◌then◌else◌}
use nat_data_collector.Types.{ErrorType, error_type_code}

pub record Error : Type 0 where
  pub error : ErrorType
  pub messages : List String

abbrev pub no_error : Error
no_error = record { error = ErrorType.ok; messages = [] }

-- `Error::Add`: the worse of the two types, and the messages of both.
unfoldable pub add : Error → Error → Error
unfolding error_type_code
add self e = record {
  error =
      if ltb (error_type_code self.error) (error_type_code e.error) then e.error else self.error;
  messages = self.messages ++ e.messages;
}

abbrev pub same_type : ErrorType → ErrorType → Bool
same_type ErrorType.ok ErrorType.ok = true
same_type ErrorType.answer ErrorType.answer = true
same_type ErrorType.warning ErrorType.warning = true
same_type ErrorType.error ErrorType.error = true
same_type _ _ = false

-- `Error::Is<e>()`.
abbrev pub is : ErrorType → Error → Bool
is e self = same_type e self.error

-- `Error::operator bool`: only the type ERROR counts as a failure.
abbrev pub failed : Error → Bool
failed self = same_type self.error ErrorType.error

-- The outcomes of an asio operation that the program tells apart, and any other failure.
pub data ErrorCode : Type 0 where
  success eof operation_aborted message_size address_in_use not_connected other : ErrorCode

-- `Error::FromAsio`; `message` is what `ec.message()` gives.
unfoldable pub from_asio : ErrorCode → String → String → Error
from_asio ErrorCode.eof message context = record {
  error = ErrorType.error;
  messages = "Connection Rejected during Transaction Attempt" ∷ append "Context : " context ∷ [];
}
from_asio ErrorCode.success message context = no_error
from_asio _ message context = record {
  error = ErrorType.error;
  messages = append "Networking Error : " message ∷ [];
}
