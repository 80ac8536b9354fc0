-- ===== src/Session/Lifecycle/Transitions.antt =====
-- shuttle/src/session/lifecycle.rs: the transitions that the documentation of
-- `can_transition_to` lists, and where they lead.
use noisy_shuttle.Base.{true, ◌≡◌, refl, ◌↔◌, ◌⊎◌, inl, inr, arith}
use noisy_shuttle.Session.Lifecycle.{
  SessionState, connecting, handshaking, idle, opening, active, draining, closing, closed, poisoned,
  can_transition_to,
}

infix 40 ◌⟶◌ ◌⟶*◌
-- The normal progression, and the two emergency transitions.
pub data ◌⟶◌ : SessionState → SessionState → Type 0 where
  connect : connecting ⟶ handshaking
  ready : handshaking ⟶ idle
  open_up : idle ⟶ opening
  retire : idle ⟶ closing
  activate : opening ⟶ active
  drain : active ⟶ draining
  rest : draining ⟶ idle
  wind_up : draining ⟶ closing
  poison : {s : SessionState} → s ⟶ poisoned
  shut : {s : SessionState} → s ⟶ closed

pub data ◌⟶*◌ : SessionState → SessionState → Type 0 where
  here : {s : SessionState} → s ⟶* s
  step : {s t u : SessionState} → s ⟶ t → t ⟶* u → s ⟶* u

ruleset edges =
    (connect, ready, open_up, retire, activate, drain, rest, wind_up, poison, shut, here, step)

⟶-can_transition_to : {s t : SessionState} → s ⟶ t → can_transition_to s t ≡ true
unfolding can_transition_to
⟶-can_transition_to connect = refl
⟶-can_transition_to ready = refl
⟶-can_transition_to open_up = refl
⟶-can_transition_to retire = refl
⟶-can_transition_to activate = refl
⟶-can_transition_to drain = refl
⟶-can_transition_to rest = refl
⟶-can_transition_to wind_up = refl
⟶-can_transition_to {s} poison = ground arith
⟶-can_transition_to {s} shut = ground arith

can_transition_to-⟶ : (s t : SessionState) → can_transition_to s t ≡ true → s ⟶ t
unfolding can_transition_to
can_transition_to-⟶ s t h = grind (arith, edges)

-- `can_transition_to` accepts the documented transitions, the emergency ones from every state
-- included, and no other.
pub can_transition_to_iff : (s t : SessionState) → (can_transition_to s t ≡ true) ↔ (s ⟶ t)
can_transition_to_iff s t = (can_transition_to-⟶ s t, ⟶-can_transition_to)

-- The states that a closed or poisoned session can still be in.
abbrev pub IsDead : SessionState → Type 0
IsDead s = (s ≡ closed) ⊎ (s ≡ poisoned)

IsDead-step : {s t : SessionState} → IsDead s → s ⟶ t → IsDead t
IsDead-step d connect = ground arith
IsDead-step d ready = ground arith
IsDead-step d open_up = ground arith
IsDead-step d retire = ground arith
IsDead-step d activate = ground arith
IsDead-step d drain = ground arith
IsDead-step d rest = ground arith
IsDead-step d wind_up = ground arith
IsDead-step d poison = inr refl
IsDead-step d shut = inl refl

-- A session that is closed or poisoned stays closed or poisoned through any sequence of the
-- documented transitions.
pub IsDead-forever : {s t : SessionState} → IsDead s → s ⟶* t → IsDead t
IsDead-forever d here = d
IsDead-forever d (step e r) = IsDead-forever (IsDead-step d e) r
