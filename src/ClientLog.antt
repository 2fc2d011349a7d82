-- ===== src/ClientLog.antt =====
-- The log of the app: AndroidSource/src/CustomCollections/Log.h. An entry is its level and the text
-- that its format string gives.
pub mod History
use Prim.Native.String.{◌++◌ as append, len}
use nat_data_collector.Prelude.{
  ℕ, String, Bool, true, false, Option, none, some, List, [], ◌∷◌, ◌++◌, ◌==◌, leb, if◌then◌else◌,
  length, map, ◌>>=◌,
}
use nat_data_collector.Types.{ErrorType}
use nat_data_collector.Errors.{Error}

pub data LogWarn : Type 0 where
  info warning error : LogWarn

pub record Entry : Type 0 where
  pub buf : String
  pub level : LogWarn

-- The static members.
pub record Log : Type 0 where
  pub log_buffer : List Entry
  pub scroll_to_bottom : Bool
  pub max_log_lines : ℕ

abbrev pub new_log : Log
new_log = record { log_buffer = []; scroll_to_bottom = false; max_log_lines = 400 }

-- The priority that the log of the system gets.
pub data AndroidPriority : Type 0 where
  android_info android_warn android_error : AndroidPriority

unfoldable pub android_priority : LogWarn → AndroidPriority
android_priority LogWarn.info = AndroidPriority.android_info
android_priority LogWarn.error = AndroidPriority.android_warn
android_priority LogWarn.warning = AndroidPriority.android_error

-- `log_buffer.erase(log_buffer.begin())`, which is undefined on an empty buffer.
abbrev pub erase_first : List Entry → Option (List Entry)
erase_first [] = none
erase_first (e ∷ es) = some es

-- `Log_Internal`.
unfoldable pub log_internal : Log → Entry → Option Log
log_internal log helper =
    (if leb log.max_log_lines (length log.log_buffer)
      then erase_first log.log_buffer
      else some log.log_buffer)
    >>= λ kept. some (record log { log_buffer = kept ++ helper ∷ []; scroll_to_bottom = true })

unfoldable pub log_all : Log → List Entry → Option Log
unfolding log_internal
log_all log [] = some log
log_all log (e ∷ es) = log_internal log e >>= λ l. log_all l es

abbrev pub entry : LogWarn → String → Entry
entry level text = record { buf = text; level = level }

-- The lines of `HandleResponse`.
abbrev pub trace : LogWarn → String → List String → List Entry
trace level head messages =
    entry level head
    ∷ entry level "---- START TRACE ----"
    ∷ (map (entry level) messages ++ entry level "----- END TRACE -----" ∷ [])

abbrev pub all_right : String → List String → List Entry
all_right context messages =
    (if len context == 0 then [] else entry LogWarn.info (append context " : OK") ∷ [])
    ++ map (entry LogWarn.info) messages

unfoldable pub response_entries : Error → String → List Entry
response_entries err context = elim err.error [
  | ErrorType.ok ↦ all_right context err.messages
  | ErrorType.answer ↦ all_right context err.messages
  | ErrorType.warning ↦ trace LogWarn.warning (append context " : Produced Warning") err.messages
  | ErrorType.error ↦ trace LogWarn.error (append context " : FAILED") err.messages
]

unfoldable pub handle_response : Log → Error → String → Option Log
unfolding response_entries log_all
handle_response log err context = log_all log (response_entries err context)

unfoldable pub pop_scroll_to_bottom : Log → Bool × Log
pop_scroll_to_bottom log = (log.scroll_to_bottom, record log { scroll_to_bottom = false })

unfoldable pub set_log_buffer_size : Log → ℕ → Log
set_log_buffer_size log size = record log { max_log_lines = size }
