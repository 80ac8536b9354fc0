-- ===== src/Session/Lifecycle.antt =====
-- shuttle/src/session/lifecycle.rs: session states and their transitions.
pub mod Transitions
pub mod Reason
mod Tests
use Prim.Native.String.{String}
use noisy_shuttle.Base.{Bool, true, false}

pub data SessionState : Type 0 where
  connecting handshaking idle opening active draining closing closed poisoned : SessionState

-- The `match` of the source, arm by arm.
unfoldable pub can_transition_to : SessionState → SessionState → Bool
can_transition_to connecting handshaking = true
can_transition_to handshaking idle = true
can_transition_to handshaking closed = true
can_transition_to idle opening = true
can_transition_to idle closing = true
can_transition_to idle poisoned = true
can_transition_to opening active = true
can_transition_to opening poisoned = true
can_transition_to active draining = true
can_transition_to active poisoned = true
can_transition_to draining idle = true
can_transition_to draining closing = true
can_transition_to draining poisoned = true
can_transition_to closing closed = true
can_transition_to poisoned closed = true
can_transition_to _ poisoned = true
can_transition_to _ closed = true
can_transition_to _ _ = false

-- Display for SessionState
unfoldable pub state_name : SessionState → String
state_name connecting = "Connecting"
state_name handshaking = "Handshaking"
state_name idle = "Idle"
state_name opening = "Opening"
state_name active = "Active"
state_name draining = "Draining"
state_name closing = "Closing"
state_name closed = "Closed"
state_name poisoned = "Poisoned"
