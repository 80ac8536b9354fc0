-- ===== src/Session/Lifecycle/Tests.antt =====
-- shuttle/src/session/lifecycle.rs: examples of transitions.
use noisy_shuttle.Base.{true, ◌≡◌, ◌↔◌}
use noisy_shuttle.Session.Lifecycle.{active, draining, can_transition_to}
use noisy_shuttle.Session.Lifecycle.Transitions.{◌⟶◌, can_transition_to_iff}

can_transition_to_iff_example : (can_transition_to active draining ≡ true) ↔ (active ⟶ draining)
can_transition_to_iff_example = can_transition_to_iff active draining
