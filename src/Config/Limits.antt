-- ===== src/Config/Limits.antt =====
-- What `validateSettings` and `handleMotd` of server/configure.go leave in the settings.
use nvda_remote_server.Common.{
  ◌≡◌, bytes_beq, Bool, true, false, not, ◌&&◌, [], arith, bytes_eq, Bool-cases, inl, inr,
  either_branch, ◌==◌, sym, subst, Bytes,
}
use nvda_remote_server.Common.Int.{ℤ, pos, int_leb, int_eq}
use nvda_remote_server.Config.{
  Config, validate_settings, is_bad_port, log_silent, log_protocol, handle_motd, warn_protocol,
  reset_display,
}

abbrev pub IsWithin : ℤ → ℤ → ℤ → Type 0
IsWithin low high n = (int_leb low n ≡ true) × (int_leb n high ≡ true)

pub record IsInRange {Float : Type 0} (below_one : Float → Bool) (c : Config Float) : Type 0 where
  pub not_below_one : below_one c.timeout_secs ≡ false
  pub pings : int_leb (pos 30) c.ping_time ≡ true
  pub ported : IsWithin (pos 1) (pos 65535) c.port
  pub ported6 : IsWithin (pos 1) (pos 65535) c.port6
  pub levelled : IsWithin log_silent log_protocol c.loglevel

module _ {Float : Type 0} (below_one : Float → Bool) (default_timeout : Float) where
  -- Whatever the settings were, then after the checks the ports, the log level and the time between
  -- pings are in their ranges, and the timeout is not below one if the default timeout is not.
  pub validate_settings-IsInRange :
      (c : Config Float)
      → below_one default_timeout ≡ false
      → IsInRange below_one (validate_settings below_one default_timeout c)
  unfolding validate_settings is_bad_port int_leb
  validate_settings-IsInRange c h = record {
    not_below_one = ground arith;
    pings = ground arith;
    ported = ground arith;
    ported6 = ground arith;
    levelled = ground arith;
  }

  -- A timeout that is not below one, as a NaN is not, stays as it is.
  validate_settings-timeout :
      (c : Config Float)
      → below_one c.timeout_secs ≡ false
      → (validate_settings below_one default_timeout c).timeout_secs ≡ c.timeout_secs
  unfolding validate_settings
  validate_settings-timeout c h = ground arith

module _ {Float : Type 0} (c : Config Float) where
  -- The last `if` of `handleMotd` changes nothing: it asks for the value that it would write.
  reset_display_keeps : reset_display c ≡ c
  unfolding reset_display
  reset_display_keeps = elim (Bool-cases (bytes_beq c.motd [] && not c.motd_always_display)) [
    | inl e ↦
        let already : false ≡ c.motd_always_display = ground (arith, e) in
        rw (e, reset_display) (λ i. record c { motd_always_display = already i })
    | inr e ↦ rw (e, reset_display)
  ]

-- The message of the day leaves the numbers alone.
pub handle_motd-IsInRange :
    {Float : Type 0} (below_one : Float → Bool) (c : Config Float)
    → IsInRange below_one c
    → IsInRange below_one (handle_motd c)
unfolding handle_motd warn_protocol
handle_motd-IsInRange below_one c v =
    subst (IsInRange below_one) (sym (reset_display_keeps (warn_protocol c)))
      (either_branch (IsInRange below_one) (c.loglevel == log_protocol) (λ _. numbers) (λ _. v))
  where
    numbers :
        {motd : Bytes} {shown : Bool}
        → IsInRange below_one (record c { motd = motd; motd_always_display = shown })
    numbers = record {
      not_below_one = v.not_below_one;
      pings = v.pings;
      ported = v.ported;
      ported6 = v.ported6;
      levelled = v.levelled;
    }
