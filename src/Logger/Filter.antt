-- ===== src/Logger/Filter.antt =====
-- What the two filters of server/logger.go come to.
use nvda_remote_server.Common.{
  ℕ, zero, suc, ◌*◌, ◌≤◌, ◌<◌, ◌≡◌, sym, subst, ℕ_discrete, ◌&&◌, leb, nat_beq, arith,
}
use nvda_remote_server.Common.Int.{pos, int_leb}
use nvda_remote_server.Config.{log_silent}
use nvda_remote_server.Logger.{is_logged}

-- A property of the numbers below `n`, checked at each.
Throughout : ℕ → (ℕ → Type 0) → Type 0
Throughout zero P = Unit
Throughout (suc n) P = P n × Throughout n P

Throughout-at : (n : ℕ) (P : ℕ → Type 0) (x : ℕ) → Throughout n P → x < n → P x
unfolding Throughout
Throughout-at zero P x h lt = absurd (omega arith)
Throughout-at (suc n) P x (here, rest) lt = elim (ℕ_discrete x n) [
  | yes e ↦ subst P (sym e) here
  | no ne ↦ Throughout-at n P x rest (omega arith)
]

abbrev LoggedAt : ℕ → ℕ → Type 0
LoggedAt l m = is_logged (pos l) (pos m) ≡ (leb l m && leb m (2 * l))

bounds_table : Throughout 5 (λ l. Throughout 5 (LoggedAt l))
unfolding Throughout is_logged int_leb
bounds_table = ground arith

is_logged-leb : (l m : ℕ) → l ≤ 4 → m ≤ 4 → is_logged (pos l) (pos m) ≡ (leb l m && leb m (2 * l))
is_logged-leb l m hl hm =
    Throughout-at 5 (LoggedAt l) m
      (Throughout-at 5 (λ l. Throughout 5 (LoggedAt l)) l bounds_table (omega arith)) (omega arith)

silent_table : Throughout 5 (λ m. is_logged log_silent (pos m) ≡ nat_beq m 4)
unfolding Throughout is_logged int_leb
silent_table = ground arith

is_logged-silent : (m : ℕ) → m ≤ 4 → is_logged log_silent (pos m) ≡ nat_beq m 4
is_logged-silent m h =
    Throughout-at 5 (λ m. is_logged log_silent (pos m) ≡ nat_beq m 4) m silent_table (omega arith)

-- At a log level `l` from 0 to 4 a message of level `m` from 0 to 4 is written exactly if `m` is at
-- least `l` and at most twice `l`: messages that are less detailed than the setting are dropped, and
-- some that are more detailed are written. With logging silenced the messages of the protocol are
-- written, and no others of these levels.
pub is_logged_lem :
    (l m : ℕ)
    → l ≤ 4
    → m ≤ 4
    → (is_logged (pos l) (pos m) ≡ (leb l m && leb m (2 * l)))
      × (is_logged log_silent (pos m) ≡ nat_beq m 4)
is_logged_lem l m hl hm = (is_logged-leb l m hl hm, is_logged-silent m hm)
