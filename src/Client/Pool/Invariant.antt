-- ===== src/Client/Pool/Invariant.antt =====
-- shuttle/src/client/pool.rs: what holds of the pool between any two critical sections.
use noisy_shuttle.Base.{
  suc, ◌+◌, ◌≤◌, ◌<◌, ◌≡◌, refl, ap, ◌∙◌, true, List, [], ◌∷◌, ◌++◌, arith, length, All,
  All-without, subst,
}
use noisy_shuttle.Opt.{ReuseConfig}
use noisy_shuttle.Opt.Validation.{IsValid}
use noisy_shuttle.Client.Pool.{PooledSession, new_inner}
use noisy_shuttle.Client.Pool.Sections.{
  IsIdle, IsHeld, IdleInv, checkout_idle-IdleInv, checkout_idle-IsHeld, checkout_idle-miss,
  checkout_new-IsHeld, checkout_new-IdleInv, return_session-IdleInv, return_session-checked_out,
  discard_checked_out-IdleInv, close_idle-IdleInv, close_idle-checked_out,
}
use noisy_shuttle.Client.Pool.Steps.{
  System, Step, Reach, take, search_in_vain, connect, give_back, discard, lose, close_all, start,
  next, usize_limit,
}

module _ {S : Type 0} (config : ReuseConfig) where
  pub record Inv (y : System S) : Type 0 where
    pub bounded : length y.inner.idle ≤ config.max_idle
    pub idle_in_limit : All (IsIdle config) y.inner.idle
    pub held_in_limit : All (IsHeld config) y.held
    pub empty_when_closed : y.inner.closed ≡ true → y.inner.idle ≡ []
    pub counted : y.inner.checked_out ≡ length y.held + y.lost
    pub countable : length y.held + y.lost < usize_limit

  idle_part : (y : System S) → Inv y → IdleInv config y.inner
  idle_part y v = record {
    bounded = v.bounded;
    idle_in_limit = v.idle_in_limit;
    empty_when_closed = v.empty_when_closed;
  }

  join :
      (y : System S)
      → IdleInv config y.inner
      → All (IsHeld config) y.held
      → y.inner.checked_out ≡ length y.held + y.lost
      → length y.held + y.lost < usize_limit
      → Inv y
  join y i h c n = record {
    bounded = i.bounded;
    idle_in_limit = i.idle_in_limit;
    held_in_limit = h;
    empty_when_closed = i.empty_when_closed;
    counted = c;
    countable = n;
  }

  length-without :
      (before after : List (PooledSession S)) (s : PooledSession S)
      → length (before ++ (s ∷ after)) ≡ suc (length (before ++ after))
  length-without [] after s = refl
  length-without (b ∷ before) after s = ap suc (length-without before after s)

  Step-Inv :
      {y z : System S}
      → IsValid config
      → config.max_requests < usize_limit
      → Step config y z
      → Inv y
      → Inv z
  Step-Inv c small (take y shutdown now s e room) v =
      let (held, count) =
        checkout_idle-IsHeld config shutdown now y.inner s small (idle_part y v) e in
      join _ (checkout_idle-IdleInv config shutdown now y.inner (idle_part y v))
        (held, v.held_in_limit) (omega (arith, count, v.counted)) (omega (arith, room))
  Step-Inv c small (search_in_vain y shutdown now e) v =
      join _ (checkout_idle-IdleInv config shutdown now y.inner (idle_part y v)) v.held_in_limit
        (checkout_idle-miss config shutdown now y.inner e ∙ v.counted) v.countable
  Step-Inv c small (connect y connected shutdown now s e room) v =
      let (held, count) =
        checkout_new-IsHeld config connected shutdown now y.inner s c.requests_positive e in
      join _ (checkout_new-IdleInv config connected shutdown now y.inner (idle_part y v))
        (held, v.held_in_limit) (omega (arith, count, v.counted)) (omega (arith, room))
  Step-Inv c small (give_back y healthy shutdown now s stream before after e) v =
      let (mine, others) =
        All-without (IsHeld config) before after (subst (All (IsHeld config)) e v.held_in_limit) in
      let fewer = length-without before after s in
      join _
        (return_session-IdleInv config healthy shutdown now _ y.inner c.idle_positive mine.1
          (idle_part y v))
        others
        (omega (
          arith,
          return_session-checked_out config healthy shutdown now (record s { stream = stream })
              y.inner,
          v.counted,
          ap length e,
          fewer,
        ))
        (omega (arith, v.countable, ap length e, fewer))
  Step-Inv c small (discard y s before after e) v =
      let (mine, others) =
        All-without (IsHeld config) before after (subst (All (IsHeld config)) e v.held_in_limit) in
      let fewer = length-without before after s in
      let (i, count) = discard_checked_out-IdleInv config y.inner (idle_part y v) in
      join _ i others (omega (arith, count, v.counted, ap length e, fewer))
        (omega (arith, v.countable, ap length e, fewer))
  Step-Inv c small (lose y s before after e) v =
      let (mine, others) =
        All-without (IsHeld config) before after (subst (All (IsHeld config)) e v.held_in_limit) in
      let fewer = length-without before after s in
      join _ (idle_part y v) others (omega (arith, v.counted, ap length e, fewer))
        (omega (arith, v.countable, ap length e, fewer))
  Step-Inv c small (close_all y) v =
      join _ (close_idle-IdleInv config y.inner) v.held_in_limit
        (close_idle-checked_out config y.inner ∙ v.counted) v.countable

  -- Where the configuration is valid and `max_requests` is a usize, after any steps of any tasks:
  -- at most `max_idle` sessions are idle, each with a request left; no session is used more often
  -- than `max_requests`; a closed pool keeps none; and `checked_out` is the number of sessions
  -- that callers hold or have dropped without giving them back.
  pub Reach-Inv :
      {y : System S} → IsValid config → config.max_requests < usize_limit → Reach config y → Inv y
  Reach-Inv c small start = record {
    bounded = unfold new_inner in omega arith;
    idle_in_limit = unfold new_inner in tt;
    held_in_limit = tt;
    empty_when_closed = λ _. unfold new_inner in refl;
    counted = unfold new_inner in refl;
    countable = omega arith;
  }
  Reach-Inv c small (next r st) = Step-Inv c small st (Reach-Inv c small r)
