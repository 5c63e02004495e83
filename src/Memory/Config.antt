-- ===== src/Memory/Config.antt =====
-- ConfigureFromFile of src/memory/global_allocator.cpp, on a JSON library that is an argument.
use corekit.Base.{Bool, not, String, if◌then◌else◌}
use corekit.Api.Status.{Status, Result, value, error, invalid_argument}
use corekit.Memory.System.{AllocBackend, ck_memory}
use corekit.Memory.Global.{GlobalAllocatorOptions, GlobalState, parse_backend, configure}

-- What the code asks of a JSON value.
pub record JsonOps (Json : Type 0) : Type 0 where
  pub is_object : Json → Bool
  pub contains : Json → String → Bool
  pub member : Json → String → Json
  pub is_string : Json → Bool
  pub get_string : Json → String
  pub is_boolean : Json → Bool
  pub get_bool : Json → Bool

module _ {Json : Type 0} (json : JsonOps Json) where
  -- The section of the configuration.
  unfoldable pub memory_section : Json → Result Json
  memory_section root =
      if json.contains root "memory"
      then if json.is_object (json.member root "memory")
        then value (json.member root "memory")
        else error (ck_memory invalid_argument "memory must be JSON object")
      else value root

  unfoldable pub read_backend : Json → GlobalAllocatorOptions → Result GlobalAllocatorOptions
  unfolding parse_backend
  read_backend section o =
      if not (json.contains section "backend")
      then value o
      else if not (json.is_string (json.member section "backend"))
      then error (ck_memory invalid_argument "memory.backend must be string")
      else elim (parse_backend (json.get_string (json.member section "backend"))) [
        | error st ↦ error st
        | value b ↦ value (record o { backend = b })
      ]

  unfoldable pub read_strict : Json → GlobalAllocatorOptions → Result GlobalAllocatorOptions
  read_strict section o =
      if not (json.contains section "strict_backend")
      then value o
      else if not (json.is_boolean (json.member section "strict_backend"))
      then error (ck_memory invalid_argument "memory.strict_backend must be boolean")
      else value
          (record o { strict_backend = json.get_bool (json.member section "strict_backend") })

  unfoldable pub read_options : Json → GlobalAllocatorOptions → Result GlobalAllocatorOptions
  unfolding memory_section read_backend read_strict
  read_options root o =
      if not (json.is_object root)
      then error (ck_memory invalid_argument "root JSON must be object")
      else elim (memory_section root) [
        | error st ↦ error st
        | value section ↦ elim (read_backend section o) [
          | error st ↦ error st
          | value o' ↦ read_strict section o'
        ]
      ]

  unfoldable pub configure_from_file :
      (AllocBackend → Bool) → GlobalState → Result Json → Status × GlobalState
  unfolding read_options configure
  configure_from_file built g (error st) = (st, g)
  configure_from_file built g (value root) = elim (read_options root g.options) [
    | error st ↦ (st, g)
    | value o ↦ configure built g o
  ]
