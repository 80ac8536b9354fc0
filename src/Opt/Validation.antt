-- ===== src/Opt/Validation.antt =====
-- shuttle/src/opt.rs: which configurations are accepted.
use noisy_shuttle.Base.{ℕ, ◌≤◌, ◌<◌, ◌≡◌, ◌↔◌, arith, Bool, true, some}
use noisy_shuttle.Results.{ok}
use noisy_shuttle.Opt.{
  ReuseConfig, ReuseOpt, new_config, reuse_config, default_server_reuse_config, from_secs,
}

-- What the rest of the program may rely on.
pub record IsValid (c : ReuseConfig) : Type 0 where
  pub idle_positive : 0 < c.max_idle
  pub requests_positive : 0 < c.max_requests
  pub timeout_positive : 0 < c.idle_timeout
  pub timeout_in_age : c.idle_timeout < c.max_age
  pub pong_positive : 0 < c.keepalive_timeout
  pub pong_in_interval : c.keepalive_timeout < c.keepalive_interval
  pub jitter_percentage : c.jitter_percent ≤ 100

-- Every accepted configuration is valid.
pub new_config-IsValid :
    (i r a t k p j : ℕ) (b : Bool) (c : ReuseConfig) → new_config i r a t k p j b ≡ ok c → IsValid c
unfolding new_config
new_config-IsValid i r a t k p j b c e = ground arith

pub default_server_reuse_config-IsValid : IsValid default_server_reuse_config
unfolding default_server_reuse_config
default_server_reuse_config-IsValid = omega arith

-- The conditions on the numbers as they stand on the command line.
pub record InRange (i r a t k p j : ℕ) : Type 0 where
  pub idle_positive : 0 < i
  pub requests_positive : 0 < r
  pub timeout_positive : 0 < t
  pub timeout_in_age : t < a
  pub pong_positive : 0 < p
  pub pong_in_interval : p < k
  pub jitter_percentage : j ≤ 100

accepted : ℕ → ℕ → ℕ → ℕ → ℕ → ℕ → ℕ → ReuseConfig
accepted i r a t k p j = record {
  max_idle = i;
  max_requests = r;
  max_age = from_secs a;
  idle_timeout = from_secs t;
  keepalive_interval = from_secs k;
  keepalive_timeout = from_secs p;
  jitter_percent = j;
}

-- A configuration is accepted exactly when its numbers are in range.
pub new_config_iff :
    (i r a t k p j : ℕ) (b : Bool)
    → ((c : ReuseConfig) × (new_config i r a t k p j b ≡ ok c)) ↔ InRange i r a t k p j
unfolding new_config accepted
new_config_iff i r a t k p j b =
    (λ h. let e = h.1 in ground arith, λ v. (accepted i r a t k p j, ground arith))

-- With reuse switched off nothing is validated; with it on, the pool gets a valid configuration or
-- the user a message.
pub reuse_config-some :
    (o : ReuseOpt) (c : ReuseConfig) → reuse_config o ≡ ok (some c) → (o.reuse ≡ true) × IsValid c
unfolding reuse_config
reuse_config-some o c e = ground arith
