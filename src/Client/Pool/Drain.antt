-- ===== src/Client/Pool/Drain.antt =====
-- shuttle/src/client/pool.rs: `close_all` waiting for the last session, action by action. `Notify`
-- is tokio's, and is a parameter.
use noisy_shuttle.Base.{
  List, [], ◌∷◌, ℕ, ◌≡◌, refl, ap, ◌∙◌, Bool, true, false, arith, ◌==◌, if◌then◌else◌,
}
use noisy_shuttle.Opt.{ReuseConfig}
use noisy_shuttle.Client.Pool.{PooledSession, PoolInner, close_idle, return_session}
use noisy_shuttle.Client.Pool.Sections.{return_session-checked_out}

-- What `close_all` and the returning tasks use of `Notify`: the creation of a waiter, the wake-up
-- of all waiters, and whether this task's waiter is woken. `notify_waiters` leaves no permit for a
-- waiter that is created later.
pub record Notify : Type 1 where
  pub State : Type 0
  pub notified : State → State
  pub notify_waiters : State → State
  pub woken : State → Bool
  pub wakes : (n : State) → woken (notify_waiters (notified n)) ≡ true
  pub no_permit : (n : State) → woken (notified n) ≡ false

-- Where the task of `close_all` stands: at the lock, past it with sessions still out, waiting for
-- the notification, done, or out of time.
pub data Phase : Type 0 where
  looking unregistered waiting drained timed_out : Phase

pub record Drain (N S : Type 0) : Type 0 where
  pub inner : PoolInner S
  pub notify : N
  pub phase : Phase

-- Two actions before the timeout.
abbrev pub in_time : List Bool
in_time = false ∷ false ∷ []

-- A wait that nothing but the timeout ends.
abbrev pub waits_through : List Bool → Phase
waits_through [] = waiting
waits_through (true ∷ lates) = timed_out
waits_through (false ∷ lates) = waits_through lates

module _ (n : Notify) {S : Type 0} where
  act : Phase → Drain n.State S → Drain n.State S
  act looking y =
      if y.inner.checked_out == 0
      then record y { phase = drained }
      else record y { phase = unregistered }
  act unregistered y = record y { notify = n.notified y.notify; phase = waiting }
  act waiting y = if n.woken y.notify then record y { phase = looking } else y
  act drained y = y
  act timed_out y = y

  -- `timeout`: the loop goes first, and is given up if it is not done when the time is over.
  give_up : Phase → Drain n.State S → Drain n.State S
  give_up drained y = y
  give_up _ y = record y { phase = timed_out }

  -- One action of `close_all` after its first critical section; `late` says that its 30 seconds are
  -- over.
  unfoldable pub drain_step : (late : Bool) → Drain n.State S → Drain n.State S
  unfolding act give_up
  drain_step false y = act y.phase y
  drain_step true y = let z = act y.phase y in give_up z.phase z

  unfoldable pub drain_steps : List Bool → Drain n.State S → Drain n.State S
  drain_steps [] y = y
  drain_steps (late ∷ lates) y = drain_steps lates (drain_step late y)

  -- The first critical section of `close_all`, and the way into the loop.
  unfoldable pub begin : PoolInner S → n.State → Drain n.State S
  begin p st = record {
    inner = (close_idle p).0;
    notify = st;
    phase = if (close_idle p).1 == 0 then drained else looking;
  }

  stays_timed_out :
      (lates : List Bool) (y : Drain n.State S) → y.phase ≡ timed_out → drain_steps lates y ≡ y
  unfolding drain_steps drain_step
  stays_timed_out [] y e = refl
  stays_timed_out (false ∷ lates) y e =
      let same : drain_step false y ≡ y = ground arith in
      ap (drain_steps lates) same ∙ stays_timed_out lates y e
  stays_timed_out (true ∷ lates) y e =
      let same : drain_step true y ≡ y = ground arith in
      ap (drain_steps lates) same ∙ stays_timed_out lates y e

  stays_waiting :
      (lates : List Bool) (y : Drain n.State S)
      → y.phase ≡ waiting
      → n.woken y.notify ≡ false
      → drain_steps lates y ≡ record y { phase = waits_through lates }
  unfolding drain_steps drain_step
  stays_waiting [] y w e = ground arith
  stays_waiting (false ∷ lates) y w e =
      let same : drain_step false y ≡ y = ground arith in
      ap (drain_steps lates) same ∙ stays_waiting lates y w e
  stays_waiting (true ∷ lates) y w e =
      let gone : drain_step true y ≡ record y { phase = timed_out } = ground arith in
      ap (drain_steps lates) gone ∙ stays_timed_out lates (record y { phase = timed_out }) refl

module _ (n : Notify) {S : Type 0} (config : ReuseConfig) where
  -- Another task gives a session back.
  unfoldable pub give_back :
      (healthy shutdown : Bool) → (now : ℕ) → PooledSession S → Drain n.State S → Drain n.State S
  give_back healthy shutdown now s y =
      let (inner, events, notifies) = return_session config healthy shutdown now s y.inner in
      record y { inner = inner; notify = if notifies then n.notify_waiters y.notify else y.notify }

  notifies :
      (healthy shutdown : Bool) (now : ℕ) (s : PooledSession S) (p : PoolInner S)
      → p.checked_out ≡ 1
      → (return_session config healthy shutdown now s p).2 ≡ true
  unfolding return_session
  notifies healthy shutdown now s p e = ground arith

  -- A last session that comes back while `close_all` waits wakes it, and it finds the pool drained.
  pub drain_completes :
      (healthy shutdown : Bool) (now : ℕ) (s : PooledSession S) (p : PoolInner S) (st : n.State)
      → p.checked_out ≡ 1
      → (drain_steps n in_time
          (give_back healthy shutdown now s (drain_steps n in_time (begin n p st)))).phase
        ≡ drained
  unfolding drain_steps drain_step begin close_idle give_back
  drain_completes healthy shutdown now s p st one =
      let q = (close_idle p).0 in
      ground (
        arith,
        n.wakes st,
        notifies healthy shutdown now s q,
        return_session-checked_out config healthy shutdown now s q,
      )

  -- `close_all` sees a session out, the session comes back, and only then the waiter is created.
  late :
      (healthy shutdown : Bool) (now : ℕ)
      → PooledSession S
      → PoolInner S
      → n.State
      → Drain n.State S
  late healthy shutdown now s p st =
      drain_step n false (give_back healthy shutdown now s (drain_step n false (begin n p st)))

  missed :
      (healthy shutdown : Bool) (now : ℕ) (s : PooledSession S) (p : PoolInner S) (st : n.State)
      → p.checked_out ≡ 1
      → let z = late healthy shutdown now s p st in
        (z.phase ≡ waiting) × (n.woken z.notify ≡ false) × (z.inner.checked_out ≡ 0)
  unfolding late drain_step begin close_idle give_back
  missed healthy shutdown now s p st one =
      let q = (close_idle p).0 in
      ground (
        arith,
        n.no_permit (n.notify_waiters st),
        notifies healthy shutdown now s q,
        return_session-checked_out config healthy shutdown now s q,
      )

  -- The last session comes back after `close_all` saw it missing and before its waiter is created:
  -- however often the task goes on, nothing is checked out and it still waits, until the timeout
  -- ends it. It never finds the pool drained.
  pub drain_lost_wakeup :
      (healthy shutdown : Bool) (now : ℕ) (s : PooledSession S) (p : PoolInner S) (st : n.State)
      (lates : List Bool)
      → p.checked_out ≡ 1
      → let y =
          drain_steps n
            (false ∷ lates)
            (give_back healthy shutdown now s (drain_steps n (false ∷ []) (begin n p st))) in
        (y.inner.checked_out ≡ 0) × (y.phase ≡ waits_through lates)
  unfolding drain_steps late
  drain_lost_wakeup healthy shutdown now s p st lates one =
      let (waits, asleep, none_out) = missed healthy shutdown now s p st one in
      rw (stays_waiting n lates (late healthy shutdown now s p st) waits asleep) (none_out, refl)
