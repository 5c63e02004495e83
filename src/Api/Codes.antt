-- ===== src/Api/Codes.antt =====
-- What an error code of src/api/status.cpp tells.
use corekit.Base.{◌+◌, ◌*◌, ◌/◌, ◌%◌, ◌^◌, ◌<◌, ◌≡◌, arith, ℕ}
use corekit.Base.Bits.{bit_and_mask, bit_or-add}
use corekit.Api.Status.{
  StatusCode, ErrorModule, pack_error_code, make_error_code, module_value, status_value,
}

module_value-lt : (m : ErrorModule) → module_value m < 2 ^ 8
unfolding module_value
module_value-lt m = ground arith

status_value-lt : (s : StatusCode) → status_value s < 2 ^ 4
unfolding status_value
status_value-lt s = ground arith

-- With a module that fits a byte and a status that fits four bits, the three fields add up.
pub pack_error_code-sum :
    (m s detail : ℕ)
    → m < 2 ^ 8
    → s < 2 ^ 4
    → pack_error_code m s detail ≡ m * 2 ^ 24 + s * 2 ^ 20 + detail % 2 ^ 20
unfolding pack_error_code
pack_error_code-sum m s detail hm hs =
    let m_fits : m * 2 ^ 24 % 2 ^ 32 ≡ m * 2 ^ 24 = omega arith in
    let s_fits : s % 2 ^ 4 ≡ s = omega arith in
    let regroup : m * 2 ^ 24 + s * 2 ^ 20 ≡ (m * 2 ^ 4 + s) * 2 ^ 20 = omega arith in
    rw
      (
        bit_and_mask 4 s,
        bit_and_mask 20 detail,
        m_fits,
        s_fits,
        bit_or-add 24 m (s * 2 ^ 20) (omega arith),
        regroup,
      )
      (bit_or-add 20 (m * 2 ^ 4 + s) (detail % 2 ^ 20) (omega arith))

make_error_code-sum :
    (m : ErrorModule) (s : StatusCode) (detail : ℕ)
    → make_error_code m s detail
      ≡ module_value m * 2 ^ 24 + status_value s * 2 ^ 20 + detail % 2 ^ 20
unfolding make_error_code
make_error_code-sum m s detail =
    pack_error_code-sum (module_value m) (status_value s) detail (module_value-lt m)
      (status_value-lt s)

-- A code gives back its module, its status and the low 20 bits of its detail id: the top byte, the
-- four bits below it, and the rest. It fits 32 bits.
pub make_error_code-fields :
    (m : ErrorModule) (s : StatusCode) (detail : ℕ)
    → let c = make_error_code m s detail in
      (c / 2 ^ 24 ≡ module_value m)
      × (c / 2 ^ 20 % 2 ^ 4 ≡ status_value s)
      × (c % 2 ^ 20 ≡ detail % 2 ^ 20)
      × (c < 2 ^ 32)
make_error_code-fields m s detail =
    omega (arith, make_error_code-sum m s detail, module_value-lt m, status_value-lt s)
