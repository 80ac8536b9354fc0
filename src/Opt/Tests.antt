-- ===== src/Opt/Tests.antt =====
-- shuttle/src/opt.rs: examples of configurations.
use noisy_shuttle.Base.{◌≡◌, refl, true, some}
use noisy_shuttle.Results.{ok}
use noisy_shuttle.Opt.{ReuseConfig, ReuseOpt, new_config, reuse_config, from_secs}

abbrev accepted : ReuseConfig
accepted = record {
  max_idle = 4;
  max_requests = 100;
  max_age = from_secs 600;
  idle_timeout = from_secs 60;
  keepalive_interval = from_secs 30;
  keepalive_timeout = from_secs 10;
  jitter_percent = 20;
}

abbrev options : ReuseOpt
options = record {
  reuse = true;
  reuse_max_idle = 4;
  reuse_max_requests = 100;
  reuse_max_age = 600;
  reuse_idle_timeout = 60;
  keepalive_interval = 30;
  keepalive_timeout = 10;
  reuse_jitter_percent = 20;
}

reuse_config-accepted : reuse_config options ≡ ok (some accepted)
unfolding reuse_config new_config
reuse_config-accepted = refl
