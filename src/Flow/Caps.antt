-- ===== src/Flow/Caps.antt =====
-- The ceiling of internal/flow/flow.go for a buffered body.
use proxysim.Prelude.{ℕ, ◌*◌, ◌^◌}

-- 10 MiB
abbrev pub default_body_cap : ℕ
default_body_cap = 10 * 2 ^ 20
