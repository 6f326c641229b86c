-- ===== src/Logging/Examples.antt =====
-- A statement at the level of the logger.
use xfer.Base.{true, [], ◌∷◌}
use xfer.Logging.{warn, initial_logger}
use xfer.Logging.Statement.{Logs, log_lem}

log_lem_example :
    Logs true initial_logger (b'0' ∷ []) warn ((b'a' ∷ []) ∷ (b'b' ∷ b'c' ∷ []) ∷ []) (b'x' ∷ [])
log_lem_example =
    log_lem true initial_logger (b'0' ∷ []) warn ((b'a' ∷ []) ∷ (b'b' ∷ b'c' ∷ []) ∷ []) (b'x' ∷ [])
