-- ===== src/Duration/Units.antt =====
-- `unit_secs` of crates/signet-cli/src/duration.rs.
use signet_sandbox.Prelude.{ℕ, Option, none, some, ◌==◌, if◌then◌else◌}

unfoldable pub unit_secs : ℕ → Option ℕ
unit_secs ch =
    if ch == b's'
    then some 1
    else if ch == b'm'
    then some 60
    else if ch == b'h'
    then some 3600
    else if ch == b'd'
    then some 86400
    else none
