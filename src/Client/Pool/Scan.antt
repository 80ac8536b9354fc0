-- ===== src/Client/Pool/Scan.antt =====
-- shuttle/src/client/pool.rs: which idle session a checkout takes, and which it evicts.
use noisy_shuttle.Base.{
  ℕ, ◌≡◌, ap, true, false, List, [], ◌∷◌, ◌++◌, none, some, arith, length, All, Bool-cases, inl,
  inr, length-append,
}
use noisy_shuttle.Opt.{ReuseConfig}
use noisy_shuttle.Session.Lifecycle.Reason.{SessionEvent}
use noisy_shuttle.Client.Pool.{PooledSession, is_reusable, emit_eviction, pop_reusable}

module _ {S : Type 0} (config : ReuseConfig) (now : ℕ) where
  -- The session may not be used again at this time.
  abbrev pub IsExpired : PooledSession S → Type 0
  IsExpired s = is_reusable config s now ≡ false

  -- A session that is not reusable is logged as evicted, once.
  pub length-emit_eviction :
      (s : PooledSession S) → IsExpired s → length (emit_eviction config s now) ≡ 1
  unfolding is_reusable emit_eviction
  length-emit_eviction s h = ground arith

  -- A checkout takes the session returned last among those still reusable. Those above it are
  -- evicted, one event for each, and those below it stay.
  pub pop_reusable-some :
      (idle : List (PooledSession S)) {s : PooledSession S} {rest : List (PooledSession S)}
      {events : List SessionEvent}
      → pop_reusable config now idle ≡ (some s, rest, events)
      → (is_reusable config s now ≡ true)
        × (skipped : List (PooledSession S)) × (idle ≡ skipped ++ (s ∷ rest))
        × All IsExpired skipped
        × (length events ≡ length skipped)
  unfolding pop_reusable
  pop_reusable-some [] e = absurd (ground arith)
  pop_reusable-some (t ∷ idle) {s} {rest} {events} e =
      elim (Bool-cases (is_reusable config t now)) [
        | inl fresh ↦ (ground arith, [], ground arith, tt, ground arith)
        | inr old ↦
            let below = pop_reusable config now idle in
            let (good, skipped, split, expired, logged) =
              pop_reusable-some idle {s = s} {rest = rest} {events = below.2} (ground arith) in
            (
              good,
              t ∷ skipped,
              ap (◌∷◌ t) split,
              (old, expired),
              ground (
                arith,
                logged,
                length-emit_eviction t old,
                length-append (emit_eviction config t now) below.2,
              ),
            )
      ]

  -- A checkout that finds none has evicted every idle session.
  pub pop_reusable-none :
      (idle : List (PooledSession S)) {rest : List (PooledSession S)} {events : List SessionEvent}
      → pop_reusable config now idle ≡ (none, rest, events)
      → (rest ≡ []) × All IsExpired idle × (length events ≡ length idle)
  unfolding pop_reusable
  pop_reusable-none [] e = ground arith
  pop_reusable-none (t ∷ idle) {rest} {events} e = elim (Bool-cases (is_reusable config t now)) [
    | inl fresh ↦ absurd (ground arith)
    | inr old ↦
        let below = pop_reusable config now idle in
        let (left, expired, logged) =
          pop_reusable-none idle {rest = rest} {events = below.2} (ground arith) in
        (
          left,
          (old, expired),
          ground (
            arith,
            logged,
            length-emit_eviction t old,
            length-append (emit_eviction config t now) below.2,
          ),
        )
  ]
