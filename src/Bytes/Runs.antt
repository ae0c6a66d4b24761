-- ===== src/Bytes/Runs.antt =====
-- A run with an exbibyte.
use nssh.Base.{◌^◌, ◌≡◌, arith, leb}
use nssh.Bytes.{format_bytes}
use nssh.Bytes.Limit.{is_panic, format_bytes_panics}

format_bytes_panics_example : is_panic (format_bytes (2 ^ 60)) ≡ leb (2 ^ 60) (2 ^ 60)
format_bytes_panics_example = format_bytes_panics (2 ^ 60) (omega arith)
