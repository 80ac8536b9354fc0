-- ===== src/Client/Preflighter/Capacity.antt =====
-- shuttle/src/client/connector.rs: the bounds of the queue's capacity.
use noisy_shuttle.Base.{
  ℕ, ◌+◌, ◌≤◌, ◌<◌, ◌==◌, ltb, leb, Bool, true, false, ◌&&◌, List, [], ◌∷◌, Option, none, some,
  arith, Bool-cases, inl, inr,
}
use noisy_shuttle.Results.{Result, ok, err}
use noisy_shuttle.Io.{IoError}
use noisy_shuttle.Client.Pool.{wrap64}
use noisy_shuttle.Client.Preflighter.{
  Preflighter, limit, new_flighting, Popped, Got, connected, failed, waiting, usize_max, shrink,
  grow, on_handshake, get_from, get,
}

-- What the assertion of `new_flighting` establishes.
pub record IsBetween (p : Preflighter) (capacity : ℕ) : Type 0 where
  pub lower : p.at_least ≤ capacity
  pub upper : capacity ≤ limit p
  pub positive : 0 < p.at_least

abbrev pub capacity_of : {S : Type 0} → Got S → ℕ
capacity_of (connected s capacity) = capacity
capacity_of (failed e capacity) = capacity
capacity_of (waiting errcnt capacity) = capacity

abbrev pub IsStarted : Option (Preflighter × ℕ) → Type 0
IsStarted none = Unit {0}
IsStarted (some (p, capacity)) = IsBetween p capacity

new_flighting-IsStarted :
    (at_least : ℕ) (at_most : Option ℕ) → IsStarted (new_flighting at_least at_most)
unfolding new_flighting
new_flighting-IsStarted at_least at_most =
    let p : Preflighter = record { at_least = at_least; at_most = at_most } in
    elim (Bool-cases (ltb 0 at_least && leb at_least (limit p))) [
      | inl h ↦
          rw (h) (record { lower = omega arith; upper = ground arith; positive = ground arith })
      | inr h ↦ rw (h) tt
    ]

module _ (p : Preflighter) where
  shrink-IsBetween : (age capacity : ℕ) → IsBetween p capacity → IsBetween p (shrink p age capacity)
  unfolding shrink
  shrink-IsBetween age capacity b = ground arith

  grow-IsBetween :
      (is_slow : Bool) (capacity : ℕ)
      → IsBetween p capacity
      → capacity < usize_max
      → IsBetween p (grow p is_slow capacity)
  unfolding grow
  grow-IsBetween true capacity b small = record {
    lower = omega (arith, b.lower, b.upper, small);
    upper = omega arith;
    positive = b.positive;
  }
  grow-IsBetween false capacity b small = b

  shrink-le : (age capacity : ℕ) → IsBetween p capacity → shrink p age capacity ≤ capacity
  unfolding shrink
  shrink-le age capacity b = ground arith

module _ {S : Type 0} (p : Preflighter) where
  on_handshake-IsBetween :
      (errcnt capacity : ℕ) (is_slow : Bool) (next : ℕ → ℕ → Got S) (r : Result IoError S)
      → IsBetween p capacity
      → capacity < usize_max
      → ((n : ℕ) → IsBetween p (capacity_of (next n capacity)))
      → IsBetween p (capacity_of (on_handshake p errcnt capacity is_slow next r))
  unfolding on_handshake
  on_handshake-IsBetween errcnt capacity is_slow next (ok s) b small ih =
      grow-IsBetween p is_slow capacity b small
  on_handshake-IsBetween errcnt capacity is_slow next (err e) b small ih =
      elim (Bool-cases (wrap64 (errcnt + 1) == capacity)) [
        | inl z ↦ rw (z) b
        | inr z ↦ rw (z) (ih (wrap64 (errcnt + 1)))
      ]

  get_from-IsBetween :
      (errcnt capacity : ℕ) (cs : List (Popped S))
      → IsBetween p capacity
      → capacity < usize_max
      → IsBetween p (capacity_of (get_from p errcnt capacity cs))
  unfolding get_from
  get_from-IsBetween errcnt capacity [] b small = b
  get_from-IsBetween errcnt capacity (c ∷ cs) b small =
      let capacity' = shrink p c.age capacity in
      let b' = shrink-IsBetween p c.age capacity b in
      let fewer : capacity' ≤ capacity = shrink-le p c.age capacity b in
      let small' : capacity' < usize_max = omega (arith, fewer, small) in
      on_handshake-IsBetween errcnt capacity' c.is_slow (λ n k. get_from p n k cs) c.result b'
        small' (λ n. get_from-IsBetween n capacity' cs b' small')

  -- The capacity of a preflighter's queue stays between its least and its most, whatever the age, the
  -- outcome and the delay of the connections that `get` takes from the queue,
  -- if it starts below 2^64 - 1.
  pub get-IsBetween :
      (capacity : ℕ) (cs : List (Popped S))
      → IsBetween p capacity
      → capacity < usize_max
      → IsBetween p (capacity_of (get p capacity cs))
  unfolding get
  get-IsBetween capacity cs b small = get_from-IsBetween 0 capacity cs b small
