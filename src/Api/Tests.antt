-- ===== src/Api/Tests.antt =====
-- Error codes on a concrete input.
use corekit.Base.{◌/◌, ◌%◌, ◌^◌, ◌<◌, ◌≡◌}
use corekit.Api.Status.{would_block, ipc, make_error_code, module_value, status_value}
use corekit.Api.Codes.{make_error_code-fields}

make_error_code-fields_example :
    (make_error_code ipc would_block 2 / 2 ^ 24 ≡ module_value ipc)
    × (make_error_code ipc would_block 2 / 2 ^ 20 % 2 ^ 4 ≡ status_value would_block)
    × (make_error_code ipc would_block 2 % 2 ^ 20 ≡ 2)
    × (make_error_code ipc would_block 2 < 2 ^ 32)
make_error_code-fields_example = make_error_code-fields ipc would_block 2
