-- ===== src/Opt.antt =====
-- shuttle/src/opt.rs: the reuse configuration and its validation. A `Duration` is its number of
-- nanoseconds.
pub mod Validation
mod Tests
use Prim.Native.String.{String}
use noisy_shuttle.Base.{
  ℕ, ◌*◌, ◌==◌, ltb, leb, if◌then◌else◌, Bool, true, false, not, Option, none, some,
}
use noisy_shuttle.Results.{Result, ok, err, ◌>>=◌, ◌>>◌}

-- Duration::from_secs
abbrev pub from_secs : ℕ → ℕ
from_secs n = n * 1_000_000_000

pub record ReuseConfig : Type 0 where
  pub max_idle : ℕ
  pub max_requests : ℕ
  pub max_age : ℕ
  pub idle_timeout : ℕ
  pub keepalive_interval : ℕ
  pub keepalive_timeout : ℕ
  pub jitter_percent : ℕ

-- An early `return Err(…)`.
abbrev reject_if : Bool → String → Result String (Unit {0})
reject_if true message = err message
reject_if false message = ok tt

-- ReuseConfig::new
unfoldable pub new_config : ℕ → ℕ → ℕ → ℕ → ℕ → ℕ → ℕ → Bool → Result String ReuseConfig
new_config max_idle max_requests max_age_secs idle_timeout_secs keepalive_interval_secs
      keepalive_timeout_secs jitter_percent keepalive_flag_was_set =
    do
      reject_if (max_idle == 0) "reuse-max-idle must be greater than 0"
      reject_if (max_requests == 0) "reuse-max-requests must be greater than 0"
      reject_if (max_age_secs == 0) "reuse-max-age must be greater than 0"
      reject_if (idle_timeout_secs == 0) "reuse-idle-timeout must be greater than 0"
      reject_if (keepalive_interval_secs == 0) "keepalive-interval must be greater than 0"
      reject_if (keepalive_timeout_secs == 0) "keepalive-timeout must be greater than 0"
      reject_if (leb keepalive_interval_secs keepalive_timeout_secs)
          "keepalive-timeout must be less than keepalive-interval"
      reject_if (leb max_age_secs idle_timeout_secs)
          "reuse-idle-timeout must be less than reuse-max-age"
      reject_if (ltb 100 jitter_percent) "reuse-jitter-percent must be between 0 and 100"
      ok (record {
        max_idle = max_idle;
        max_requests = max_requests;
        max_age = from_secs max_age_secs;
        idle_timeout = from_secs idle_timeout_secs;
        keepalive_interval = from_secs keepalive_interval_secs;
        keepalive_timeout = from_secs keepalive_timeout_secs;
        jitter_percent = jitter_percent;
      })

-- The fields of `CltOpt` for reusable sessions.
pub record ReuseOpt : Type 0 where
  pub reuse : Bool
  pub reuse_max_idle : ℕ
  pub reuse_max_requests : ℕ
  pub reuse_max_age : ℕ
  pub reuse_idle_timeout : ℕ
  pub keepalive_interval : ℕ
  pub keepalive_timeout : ℕ
  pub reuse_jitter_percent : ℕ

-- CltOpt::reuse_config
unfoldable pub reuse_config : ReuseOpt → Result String (Option ReuseConfig)
unfolding new_config
reuse_config o =
    if not o.reuse
    then ok none
    else (new_config o.reuse_max_idle o.reuse_max_requests o.reuse_max_age o.reuse_idle_timeout
          o.keepalive_interval o.keepalive_timeout o.reuse_jitter_percent true
        >>= λ c. ok (some c))

-- shuttle/src/server.rs: default_server_reuse_config
unfoldable pub default_server_reuse_config : ReuseConfig
default_server_reuse_config = record {
  max_idle = 4;
  max_requests = 100;
  max_age = from_secs 1800;
  idle_timeout = from_secs 300;
  keepalive_interval = from_secs 30;
  keepalive_timeout = from_secs 10;
  jitter_percent = 10;
}
