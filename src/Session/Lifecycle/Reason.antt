-- ===== src/Session/Lifecycle/Reason.antt =====
-- shuttle/src/session/lifecycle.rs: close reasons and session events.
use Prim.Native.String.{String}
use noisy_shuttle.Base.{ℕ, Option, none, some}

pub data CloseReason : Type 0 where
  client_close client_initiated server_close server_error idle_timeout max_age_exceeded :
      CloseReason
  max_requests_exceeded max_requests_reached keepalive_timeout protocol_error : CloseReason
  version_mismatch shutdown_drain checkout_failed poisoned : CloseReason

-- `reason as u8`: the position of the variant in the declaration.
unfoldable pub discriminant : CloseReason → ℕ
discriminant client_close = 0
discriminant client_initiated = 1
discriminant server_close = 2
discriminant server_error = 3
discriminant idle_timeout = 4
discriminant max_age_exceeded = 5
discriminant max_requests_exceeded = 6
discriminant max_requests_reached = 7
discriminant keepalive_timeout = 8
discriminant protocol_error = 9
discriminant version_mismatch = 10
discriminant shutdown_drain = 11
discriminant checkout_failed = 12
discriminant poisoned = 13

-- Display for CloseReason
unfoldable pub reason_name : CloseReason → String
reason_name client_close = "ClientClose"
reason_name client_initiated = "ClientInitiated"
reason_name server_close = "ServerClose"
reason_name server_error = "ServerError"
reason_name idle_timeout = "IdleTimeout"
reason_name max_age_exceeded = "MaxAgeExceeded"
reason_name max_requests_exceeded = "MaxRequestsExceeded"
reason_name max_requests_reached = "MaxRequestsReached"
reason_name keepalive_timeout = "KeepaliveTimeout"
reason_name protocol_error = "ProtocolError"
reason_name version_mismatch = "VersionMismatch"
reason_name shutdown_drain = "ShutdownDrain"
reason_name checkout_failed = "CheckoutFailed"
reason_name poisoned = "Poisoned"

pub data SessionEvent : Type 0 where
  pool_hit pool_miss checkout_failure fallback_to_one_shot : SessionEvent
  session_reused : ℕ → SessionEvent
  ping_sent ping_acked ping_timeout idle_eviction max_age_eviction : SessionEvent
  max_requests_eviction remote_close graceful_drain : SessionEvent

pub data Level : Type 0 where
  debug info warn : Level

-- What `emit` hands to the tracing subscriber.
pub record LogLine : Type 0 where
  pub level : Level
  pub event : String
  pub reuse_count : Option ℕ
  pub reason : Option String
  pub message : String

abbrev line : Level → String → String → LogLine
line level event message = record {
  level = level;
  event = event;
  reuse_count = none;
  reason = none;
  message = message;
}

abbrev eviction : String → CloseReason → String → LogLine
unfolding reason_name
eviction event reason message = record {
  level = info;
  event = event;
  reuse_count = none;
  reason = some (reason_name reason);
  message = message;
}

unfoldable pub emit : SessionEvent → LogLine
unfolding reason_name
emit pool_hit = line info "pool_hit" "Session acquired from pool"
emit pool_miss = line info "pool_miss" "No reusable session in pool"
emit checkout_failure = line warn "checkout_failed" "Failed to checkout session from pool"
emit fallback_to_one_shot = line warn "fallback_to_oneshot" "Falling back to one-shot mode"
emit (session_reused count) = record {
  level = info;
  event = "session_reused";
  reuse_count = some count;
  reason = none;
  message = "Session reused from pool";
}
emit ping_sent = line debug "ping_sent" "Keepalive ping sent"
emit ping_acked = line debug "ping_acked" "Keepalive ping acked"
emit ping_timeout = line warn "ping_timeout" "Keepalive ping timed out"
emit idle_eviction = eviction "idle_eviction" idle_timeout "Session evicted due to idle timeout"
emit max_age_eviction =
    eviction "max_age_eviction" max_age_exceeded "Session evicted due to max age"
emit max_requests_eviction =
    eviction "max_requests_eviction" max_requests_exceeded "Session evicted due to max requests"
emit remote_close = line info "remote_close" "Server closed the connection"
emit graceful_drain = line info "graceful_drain" "Session gracefully drained"
