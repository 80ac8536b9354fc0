-- ===== src/Client/Pool/Steps.antt =====
-- shuttle/src/client/pool.rs: the pool with the sessions that its callers hold, and what the tasks
-- that share it can do, one critical section at a time, in any order.
use noisy_shuttle.Base.{ℕ, suc, ◌+◌, ◌<◌, ◌≡◌, Bool, List, [], ◌∷◌, ◌++◌, Option, length}
use noisy_shuttle.Results.{ok}
use noisy_shuttle.Opt.{ReuseConfig}
use noisy_shuttle.Client.Pool.{
  PooledSession, PoolInner, hit, miss, checkout_idle, checkout_new, return_session,
  discard_checked_out, close_idle, new_inner,
}

-- `held` are the sessions that were checked out and that a caller still has, `lost` the number of
-- those that a caller dropped without giving them back or discarding them.
pub record System (S : Type 0) : Type 0 where
  pub inner : PoolInner S
  pub held : List (PooledSession S)
  pub lost : ℕ

abbrev pub usize_limit : ℕ
usize_limit = 18446744073709551616

module _ {S : Type 0} (config : ReuseConfig) where
  -- A caller may change the stream of a session that it holds, and nothing else of it.
  pub data Step : System S → System S → Type 0 where
    take :
        (y : System S) (shutdown : Bool) (now : ℕ) (s : PooledSession S)
        → (checkout_idle config shutdown now y.inner).1 ≡ hit s
        → suc (length y.held + y.lost) < usize_limit
        → Step y
            (record y { inner = (checkout_idle config shutdown now y.inner).0; held = s ∷ y.held })
    search_in_vain :
        (y : System S) (shutdown : Bool) (now : ℕ)
        → (checkout_idle config shutdown now y.inner).1 ≡ miss
        → Step y (record y { inner = (checkout_idle config shutdown now y.inner).0 })
    connect :
        (y : System S) (connected : Option S) (shutdown : Bool) (now : ℕ) (s : PooledSession S)
        → (checkout_new connected shutdown now y.inner).1 ≡ ok s
        → suc (length y.held + y.lost) < usize_limit
        → Step y (record y {
          inner = (checkout_new connected shutdown now y.inner).0;
          held = s ∷ y.held;
        })
    give_back :
        (y : System S) (healthy shutdown : Bool) (now : ℕ) (s : PooledSession S) (stream : S)
        (before after : List (PooledSession S))
        → y.held ≡ before ++ (s ∷ after)
        → Step y (record y {
          inner =
              (return_session config healthy shutdown now (record s { stream = stream }) y.inner).0;
          held = before ++ after;
        })
    discard :
        (y : System S) (s : PooledSession S) (before after : List (PooledSession S))
        → y.held ≡ before ++ (s ∷ after)
        → Step y (record y { inner = (discard_checked_out y.inner).0; held = before ++ after })
    -- A retry that is refused, or a write that fails, drops the session where it stands.
    lose :
        (y : System S) (s : PooledSession S) (before after : List (PooledSession S))
        → y.held ≡ before ++ (s ∷ after)
        → Step y (record y { held = before ++ after; lost = suc y.lost })
    close_all : (y : System S) → Step y (record y { inner = (close_idle y.inner).0 })

  pub data Reach : System S → Type 0 where
    start : Reach (record { inner = new_inner; held = []; lost = 0 })
    next : {y z : System S} → Reach y → Step y z → Reach z
