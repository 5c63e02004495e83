-- ===== src/Api/Status.antt =====
-- `StatusCode`, `ErrorModule`, `Status`, `Result` of include/corekit/api/status.hpp, and the error
-- codes, names and catalog of src/api/status.cpp.
use Prim.Native.Nat.{bit_and, bit_or}
use corekit.Base.{
  ℕ, ◌*◌, ◌%◌, ◌^◌, Bool, true, false, Option, none, some, List, [], ◌∷◌, String, ◌==◌,
  if◌then◌else◌,
}

pub data StatusCode : Type 0 where
  ok invalid_argument not_initialized already_initialized not_found would_block : StatusCode
  buffer_too_small io_error internal_error unsupported : StatusCode

pub data ErrorModule : Type 0 where
  core api log ipc memory concurrent task json xml : ErrorModule

-- The enumerators' values.
unfoldable pub status_value : StatusCode → ℕ
status_value StatusCode.ok = 0
status_value invalid_argument = 1
status_value not_initialized = 2
status_value already_initialized = 3
status_value not_found = 4
status_value would_block = 5
status_value buffer_too_small = 6
status_value io_error = 7
status_value internal_error = 8
status_value unsupported = 9

unfoldable pub module_value : ErrorModule → ℕ
module_value core = 0x00
module_value api = 0x01
module_value log = 0x10
module_value ipc = 0x20
module_value memory = 0x30
module_value concurrent = 0x40
module_value task = 0x50
module_value json = 0x60
module_value xml = 0x70

-- `PackErrorCode`: `module` and `status` are bytes, `detail` is a 32-bit number.
unfoldable pub pack_error_code : ℕ → ℕ → ℕ → ℕ
pack_error_code m s detail =
    bit_or (bit_or (m * 2 ^ 24 % 2 ^ 32) (bit_and s 0x0F * 2 ^ 20)) (bit_and detail 0x000F_FFFF)

unfoldable pub make_error_code : ErrorModule → StatusCode → ℕ → ℕ
unfolding pack_error_code module_value status_value
make_error_code m s detail = pack_error_code (module_value m) (status_value s) detail

pub record Status : Type 0 where
  pub code : StatusCode
  pub message : String
  pub hex_code : ℕ

-- `Status::Ok()`, the constructor with a code and a message, and `Status::FromModule`.
abbrev pub status_ok : Status
status_ok = record {
  code = StatusCode.ok;
  message = "";
  hex_code = make_error_code core StatusCode.ok 0;
}

abbrev pub status : StatusCode → String → Status
status c message = record { code = c; message = message; hex_code = make_error_code core c 0 }

abbrev pub from_module : StatusCode → String → ErrorModule → ℕ → Status
from_module c message m detail = record {
  code = c;
  message = message;
  hex_code = make_error_code m c detail;
}

abbrev pub is_ok_code : StatusCode → Bool
is_ok_code StatusCode.ok = true
is_ok_code _ = false

-- `Status::ok()`.
abbrev pub is_ok : Status → Bool
is_ok s = is_ok_code s.code

-- `Result<T>`: built from a value or from a status, which may be any status.
pub data Result {ℓ} (A : Type ℓ) : Type ℓ where
  value : A → Result A
  error : Status → Result A

module _ {ℓ} {A : Type ℓ} where
  -- `Result<T>::ok()`, by the status.
  abbrev pub result_ok : Result A → Bool
  result_ok (value a) = true
  result_ok (error s) = is_ok s

  abbrev pub has_value : Result A → Bool
  has_value (value a) = true
  has_value (error s) = false

  unfoldable pub value_or : Result A → A → A
  value_or (value a) fallback = a
  value_or (error s) fallback = fallback

  -- `Map` and `AndThen` go by `ok()`, and a result without a value holds a default one, `initial`.
  unfoldable pub map_result {κ} : {B : Type κ} → A → (A → B) → Result A → Result B
  map_result initial fn (value a) = value (fn a)
  map_result initial fn (error s) = if is_ok s then value (fn initial) else error s

  unfoldable pub and_then {κ} : {B : Type κ} → A → (A → Result B) → Result A → Result B
  and_then initial fn (value a) = fn a
  and_then initial fn (error s) = if is_ok s then fn initial else error s

pub record ErrorCatalogEntry : Type 0 where
  pub hex_code : ℕ
  pub symbol : String
  pub description : String

entry : ErrorModule → StatusCode → ℕ → String → String → ErrorCatalogEntry
unfolding make_error_code
entry m s detail symbol description = record {
  hex_code = make_error_code m s detail;
  symbol = symbol;
  description = description;
}

-- `kErrorCatalog`.
unfoldable pub error_catalog : List ErrorCatalogEntry
unfolding entry
error_catalog =
    entry core StatusCode.ok 0 "CORE_OK" "Operation succeeded"
    ∷ entry core invalid_argument 0 "CORE_INVALID_ARGUMENT" "Invalid argument"
    ∷ entry core not_initialized 0 "CORE_NOT_INITIALIZED" "Object not initialized"
    ∷ entry core already_initialized 0 "CORE_ALREADY_INITIALIZED" "Object already initialized"
    ∷ entry core not_found 0 "CORE_NOT_FOUND" "Resource not found"
    ∷ entry core would_block 0 "CORE_WOULD_BLOCK" "Operation would block"
    ∷ entry core buffer_too_small 0 "CORE_BUFFER_TOO_SMALL" "Buffer is too small"
    ∷ entry core io_error 0 "CORE_IO_ERROR" "I/O error"
    ∷ entry core internal_error 0 "CORE_INTERNAL_ERROR" "Internal error"
    ∷ entry core unsupported 0 "CORE_UNSUPPORTED" "Operation unsupported"
    ∷ entry task would_block 1 "TASK_QUEUE_FULL" "Task queue is full"
    ∷ entry task invalid_argument 1 "TASK_INVALID_FN" "Task function is null"
    ∷ entry ipc would_block 1 "IPC_QUEUE_FULL" "IPC channel queue is full"
    ∷ entry ipc would_block 2 "IPC_QUEUE_EMPTY" "IPC channel has no message"
    ∷ entry memory invalid_argument 1 "MEM_INVALID_ALIGNMENT" "Invalid memory alignment"
    ∷ entry json invalid_argument 1 "JSON_PARSE_FAILED" "JSON parse failed"
    ∷ entry concurrent would_block 1 "QUEUE_FULL" "Concurrent queue is full"
    ∷ entry concurrent would_block 2 "QUEUE_EMPTY" "Concurrent queue is empty"
    ∷ []

-- The loop of `FindErrorCatalogEntry`, which returns at the first match.
find_entry : ℕ → List ErrorCatalogEntry → Option ErrorCatalogEntry
find_entry hex_code [] = none
find_entry hex_code (e ∷ es) = if e.hex_code == hex_code then some e else find_entry hex_code es

unfoldable pub find_error_catalog_entry : ℕ → Option ErrorCatalogEntry
unfolding find_entry error_catalog
find_error_catalog_entry hex_code = find_entry hex_code error_catalog

unfoldable pub error_module_name : ErrorModule → String
error_module_name core = "core"
error_module_name api = "api"
error_module_name log = "log"
error_module_name ipc = "ipc"
error_module_name memory = "memory"
error_module_name concurrent = "concurrent"
error_module_name task = "task"
error_module_name json = "json"
error_module_name xml = "xml"

unfoldable pub status_code_name : StatusCode → String
status_code_name StatusCode.ok = "kOk"
status_code_name invalid_argument = "kInvalidArgument"
status_code_name not_initialized = "kNotInitialized"
status_code_name already_initialized = "kAlreadyInitialized"
status_code_name not_found = "kNotFound"
status_code_name would_block = "kWouldBlock"
status_code_name buffer_too_small = "kBufferTooSmall"
status_code_name io_error = "kIoError"
status_code_name internal_error = "kInternalError"
status_code_name unsupported = "kUnsupported"
