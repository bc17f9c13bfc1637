-- ===== src/Logger.antt =====
-- server/logger.go: which messages `Log` writes. A message passes two filters, one in `Log` and one in
-- the handler of `slog`, which is enabled for levels at or above its own.
pub mod Filter
pub mod Output
use nvda_remote_server.Common.{ℕ, zero, suc, Bool, not, ◌&&◌, ◌||◌, List, [], ◌∷◌, if◌then◌else◌}
use nvda_remote_server.Common.Int.{ℤ, pos, negsuc, int_leb}
use nvda_remote_server.Config.{log_silent, log_protocol, int_ltb}

-- `slog.LevelError + 2`, `slog.LevelInfo`, 2, 4, 8 and 10.
abbrev pub log_level_map : List ℤ
log_level_map = pos 10 ∷ pos 0 ∷ pos 2 ∷ pos 4 ∷ pos 8 ∷ pos 10 ∷ []

-- `logLevelMap[i]`; an index out of range, which would panic, does not arise.
unfoldable pub level_at : List ℤ → ℕ → ℤ
level_at [] i = pos 0
level_at (l ∷ ls) zero = l
level_at (l ∷ ls) (suc i) = level_at ls i

-- level + 1, for levels from -1 on.
unfoldable pub level_index : ℤ → ℕ
level_index (pos n) = suc n
level_index (negsuc n) = 0

unfoldable pub to_slog_level : ℤ → ℤ
unfolding level_at level_index
to_slog_level level =
    if int_ltb level log_silent || int_ltb log_protocol level
    then pos 10
    else level_at log_level_map (level_index level)

-- `Log(level, …)` writes, after `log_init` with the setting `loglevel`: the message is not above
-- `logLevel`, and the handler is enabled for the level that it is given.
unfoldable pub is_logged : ℤ → ℤ → Bool
unfolding to_slog_level
is_logged loglevel level =
    let log_level = to_slog_level loglevel in
    not (int_ltb log_level level) && int_leb log_level (to_slog_level level)
