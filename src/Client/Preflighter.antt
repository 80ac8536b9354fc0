-- ===== src/Client/Preflighter.antt =====
-- shuttle/src/client/connector.rs: the capacity of the queue of connections that `Preflighter` opens in
-- advance, and `get`, where one caller takes connections from it. Handshake times are f32 in the
-- source; whether the cumulative delay exceeds the average is part of the schedule. `resize` of the
-- queue is taken to have its effect at once; that it can wait for a pending push is not modelled.
pub mod Capacity
mod Tests
use noisy_shuttle.Base.{
  ℕ, ◌+◌, ◌-◌, ◌≤◌, ◌<◌, ◌==◌, ltb, leb, min, max, if◌then◌else◌, Bool, true, false, ◌&&◌, List, [],
  ◌∷◌, Option, none, some,
}
use noisy_shuttle.Results.{Result, ok, err}
use noisy_shuttle.Io.{IoError}
use noisy_shuttle.Client.Pool.{wrap64}

abbrev pub preflighter_connidle : ℕ
preflighter_connidle = 120

abbrev pub usize_max : ℕ
usize_max = 18446744073709551615

pub record Preflighter : Type 0 where
  pub at_least : ℕ
  pub at_most : Option ℕ

abbrev pub limit : Preflighter → ℕ
limit p = elim p.at_most [ some n ↦ n | none ↦ usize_max ]

-- The assertion of `new_flighting`, which makes a queue of capacity `at_least`.
unfoldable pub new_flighting : ℕ → Option ℕ → Option (Preflighter × ℕ)
new_flighting at_least at_most =
    let p : Preflighter = record { at_least = at_least; at_most = at_most } in
    if ltb 0 at_least && leb at_least (limit p) then some (p, at_least) else none

-- A connection taken from the queue: its age in seconds, what its handshake came to, and whether
-- the cumulative delay of handshakes exceeds the average afterwards.
pub record Popped (S : Type 0) : Type 0 where
  pub age : ℕ
  pub result : Result IoError S
  pub is_slow : Bool

-- How `get` ends, with the capacity of the queue, or that it waits for a further connection.
pub data Got (S : Type 0) : Type 0 where
  connected : S → (capacity : ℕ) → Got S
  failed : IoError → (capacity : ℕ) → Got S
  waiting : (errcnt capacity : ℕ) → Got S

unfoldable pub shrink : Preflighter → (age capacity : ℕ) → ℕ
shrink p age capacity =
    if ltb preflighter_connidle age then max (capacity - 1) p.at_least else capacity

unfoldable pub grow : Preflighter → Bool → ℕ → ℕ
grow p is_slow capacity = if is_slow then min (wrap64 (capacity + 1)) (limit p) else capacity

module _ {S : Type 0} where
  -- The `match` on the handshake; `next` is the next round.
  unfoldable pub on_handshake :
      Preflighter → (errcnt capacity : ℕ) → Bool → (ℕ → ℕ → Got S) → Result IoError S → Got S
  on_handshake p errcnt capacity is_slow next (ok s) = connected s (grow p is_slow capacity)
  on_handshake p errcnt capacity is_slow next (err e) =
      let errcnt' = wrap64 (errcnt + 1) in
      let again = next errcnt' capacity in if errcnt' == capacity then failed e capacity else again

  unfoldable pub get_from : Preflighter → (errcnt capacity : ℕ) → List (Popped S) → Got S
  get_from p errcnt capacity [] = waiting errcnt capacity
  get_from p errcnt capacity (c ∷ cs) =
      on_handshake p errcnt (shrink p c.age capacity) c.is_slow (λ n k. get_from p n k cs) c.result

  unfoldable pub get : Preflighter → (capacity : ℕ) → List (Popped S) → Got S
  get p capacity cs = get_from p 0 capacity cs
