-- ===== src/Client/Pool/Sections.antt =====
-- shuttle/src/client/pool.rs: what each critical section does to the idle list and the
-- counter.
use noisy_shuttle.Base.{
  ℕ, suc, ◌+◌, ◌-◌, ◌≤◌, ◌<◌, ◌≡◌, refl, ◌∙◌, Bool, true, List, [], ◌∷◌, Option, none, some, arith,
  length, All, Bool-cases, Option-cases, inl, inr,
}
use noisy_shuttle.Results.{ok}
use noisy_shuttle.Opt.{ReuseConfig}
use noisy_shuttle.Client.Pool.{
  PooledSession, PoolInner, hit, miss, checkout_idle, checkout_new, return_session, keep_session,
  is_reusable, discard_checked_out, close_idle, pop_reusable, pop_front, wrap64,
}
use noisy_shuttle.Client.Pool.Steps.{usize_limit}

module _ {S : Type 0} (config : ReuseConfig) where
  -- An idle session has a request left, a held one is within the limit; both count their first use
  -- and each reuse.
  abbrev pub IsIdle : PooledSession S → Type 0
  IsIdle s = (s.use_count < config.max_requests) × (s.use_count ≡ suc s.reuse_count)

  abbrev pub IsHeld : PooledSession S → Type 0
  IsHeld s = (s.use_count ≤ config.max_requests) × (s.use_count ≡ suc s.reuse_count)

  pop_front-IsIdle : (xs : List (PooledSession S)) → All IsIdle xs → All IsIdle (pop_front xs)
  pop_front-IsIdle [] h = tt
  pop_front-IsIdle (x ∷ []) h = tt
  pop_front-IsIdle (x ∷ y ∷ xs) h = (h.0, pop_front-IsIdle (y ∷ xs) h.1)

  length-pop_front : (xs : List (PooledSession S)) → length (pop_front xs) ≡ length xs - 1
  length-pop_front [] = omega arith
  length-pop_front (x ∷ []) = omega arith
  length-pop_front (x ∷ y ∷ xs) = omega (arith, length-pop_front (y ∷ xs))

  -- The part of the invariant that is about the idle list alone.
  pub record IdleInv (p : PoolInner S) : Type 0 where
    pub bounded : length p.idle ≤ config.max_idle
    pub idle_in_limit : All IsIdle p.idle
    pub empty_when_closed : p.closed ≡ true → p.idle ≡ []

  is_reusable-use_count :
      (s : PooledSession S) (now : ℕ)
      → is_reusable config s now ≡ true
      → s.use_count < config.max_requests
  unfolding is_reusable
  is_reusable-use_count s now h = ground arith

  pub keep_session-IdleInv :
      (healthy shutdown : Bool) (now : ℕ) (s : PooledSession S) (p : PoolInner S)
      → 0 < config.max_idle
      → s.use_count ≡ suc s.reuse_count
      → IdleInv p
      → IdleInv (keep_session config healthy shutdown now s p).0
  unfolding keep_session
  keep_session-IdleInv healthy shutdown now s p room counts v = ground (
    arith,
    is_reusable-use_count s now,
    pop_front-IsIdle p.idle v.idle_in_limit,
    length-pop_front p.idle,
  )

  pub pop_reusable-rest :
      (now : ℕ) (idle : List (PooledSession S))
      → All IsIdle idle
      → All IsIdle (pop_reusable config now idle).1
        × (length (pop_reusable config now idle).1 ≤ length idle)
  unfolding pop_reusable
  pop_reusable-rest now [] h = (tt, omega arith)
  pop_reusable-rest now (s ∷ idle) h =
      let below = pop_reusable-rest now idle h.1 in ground (arith, below)

  pub pop_reusable-found :
      (now : ℕ) (idle : List (PooledSession S)) (s : PooledSession S)
      → All IsIdle idle
      → (pop_reusable config now idle).0 ≡ some s
      → IsIdle s
  unfolding pop_reusable
  pop_reusable-found now [] s h e = cc
  pop_reusable-found now (t ∷ idle) s h e = elim (Bool-cases (is_reusable config t now)) [
    | inl fresh ↦ ground arith
    | inr old ↦ pop_reusable-found now idle s h.1 (ground arith)
  ]

  pub checkout_idle-IdleInv :
      (shutdown : Bool) (now : ℕ) (p : PoolInner S)
      → IdleInv p
      → IdleInv (checkout_idle config shutdown now p).0
  unfolding checkout_idle
  checkout_idle-IdleInv shutdown now p v =
      ground (arith, pop_reusable-rest now p.idle v.idle_in_limit)

  -- A session taken from the pool has been counted once more, and is within its limit.
  pub checkout_idle-IsHeld :
      (shutdown : Bool) (now : ℕ) (p : PoolInner S) (s : PooledSession S)
      → config.max_requests < usize_limit
      → IdleInv p
      → (checkout_idle config shutdown now p).1 ≡ hit s
      → IsHeld s
        × ((checkout_idle config shutdown now p).0.checked_out ≡ wrap64 (p.checked_out + 1))
  unfolding checkout_idle
  checkout_idle-IsHeld shutdown now p s small v e =
      elim (Option-cases (pop_reusable config now p.idle).0) [
        | inl none_left ↦ absurd (ground arith)
        | inr (t, found) ↦ ground (arith, pop_reusable-found now p.idle t v.idle_in_limit found)
      ]

  pub checkout_new-IsHeld :
      (connected : Option S) (shutdown : Bool) (now : ℕ) (p : PoolInner S) (s : PooledSession S)
      → 0 < config.max_requests
      → (checkout_new connected shutdown now p).1 ≡ ok s
      → IsHeld s
        × ((checkout_new connected shutdown now p).0.checked_out ≡ wrap64 (p.checked_out + 1))
  unfolding checkout_new
  checkout_new-IsHeld none shutdown now p s pos e = cc
  checkout_new-IsHeld (some stream) shutdown now p s pos e = ground arith

  pub checkout_new-IdleInv :
      (connected : Option S) (shutdown : Bool) (now : ℕ) (p : PoolInner S)
      → IdleInv p
      → IdleInv (checkout_new connected shutdown now p).0
  unfolding checkout_new
  checkout_new-IdleInv none shutdown now p v = v
  checkout_new-IdleInv (some stream) shutdown now p v = ground arith

  pub return_session-IdleInv :
      (healthy shutdown : Bool) (now : ℕ) (s : PooledSession S) (p : PoolInner S)
      → 0 < config.max_idle
      → s.use_count ≡ suc s.reuse_count
      → IdleInv p
      → IdleInv (return_session config healthy shutdown now s p).0
  unfolding return_session
  return_session-IdleInv healthy shutdown now s p room counts v =
      keep_session-IdleInv healthy shutdown now (record s { last_used = now }) _ room counts
        (ground arith)

  pub keep_session-checked_out :
      (healthy shutdown : Bool) (now : ℕ) (s : PooledSession S) (p : PoolInner S)
      → (keep_session config healthy shutdown now s p).0.checked_out ≡ p.checked_out
  unfolding keep_session
  keep_session-checked_out healthy shutdown now s p = ground arith

  pub return_session-checked_out :
      (healthy shutdown : Bool) (now : ℕ) (s : PooledSession S) (p : PoolInner S)
      → (return_session config healthy shutdown now s p).0.checked_out ≡ p.checked_out - 1
  unfolding return_session
  return_session-checked_out healthy shutdown now s p =
      keep_session-checked_out healthy shutdown now (record s { last_used = now }) _ ∙ ground arith

  pub checkout_idle-miss :
      (shutdown : Bool) (now : ℕ) (p : PoolInner S)
      → (checkout_idle config shutdown now p).1 ≡ miss
      → (checkout_idle config shutdown now p).0.checked_out ≡ p.checked_out
  unfolding checkout_idle
  checkout_idle-miss shutdown now p e = ground arith

  pub discard_checked_out-IdleInv :
      (p : PoolInner S)
      → IdleInv p
      → IdleInv (discard_checked_out p).0
        × ((discard_checked_out p).0.checked_out ≡ p.checked_out - 1)
  unfolding discard_checked_out
  discard_checked_out-IdleInv p v = ground arith

  pub close_idle-IdleInv : (p : PoolInner S) → IdleInv (close_idle p).0
  unfolding close_idle
  close_idle-IdleInv p = record {
    bounded = omega arith;
    idle_in_limit = tt;
    empty_when_closed = λ _. refl;
  }

  pub close_idle-checked_out : (p : PoolInner S) → (close_idle p).0.checked_out ≡ p.checked_out
  unfolding close_idle
  close_idle-checked_out p = refl
