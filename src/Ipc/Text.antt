-- ===== src/Ipc/Text.antt =====
-- ToString of src/ipc/shared_memory_channel.cpp: a 32-bit number in decimal.
use Prim.Native.String.{slice, ◌++◌}
use corekit.Base.{ℕ, zero, suc, ◌+◌, ◌%◌, String, ltb, if◌then◌else◌}
use Prim.Native.Nat.{◌/◌}

-- A digit.
abbrev pub digit : ℕ → String
digit d = slice "0123456789" d (d + 1)

-- The last digits of a number, as many as there are at most.
unfoldable pub decimal : (digits n : ℕ) → String
decimal zero n = ""
decimal (suc digits) n =
    let rest = decimal digits (n / 10) in if ltb n 10 then digit n else rest ++ digit (n % 10)

-- 2^32 - 1 has ten digits.
unfoldable pub to_string : ℕ → String
unfolding decimal
to_string value = decimal 10 value

unfoldable pub too_small_text : (required : ℕ) → String
unfolding to_string
too_small_text required = "buffer too small, required=" ++ to_string required
