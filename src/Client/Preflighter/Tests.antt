-- ===== src/Client/Preflighter/Tests.antt =====
-- Examples of shuttle/src/client/connector.rs.
use noisy_shuttle.Base.{ℕ, ◌≡◌, refl, true, false, [], ◌∷◌, some, arith}
use noisy_shuttle.Results.{ok, err}
use noisy_shuttle.Io.{other_error}
use noisy_shuttle.Client.Preflighter.{
  Preflighter, Popped, connected, shrink, grow, on_handshake, get_from, get,
}
use noisy_shuttle.Client.Preflighter.Capacity.{IsBetween, capacity_of, get-IsBetween}

abbrev one_to_four : Preflighter
one_to_four = record { at_least = 1; at_most = some 4 }

abbrev stale : Popped ℕ
stale = record { age = 130; result = err other_error; is_slow = false }

abbrev fresh : Popped ℕ
fresh = record { age = 1; result = err other_error; is_slow = false }

abbrev good : Popped ℕ
good = record { age = 1; result = ok 7; is_slow = true }

grows : get one_to_four 3 (fresh ∷ good ∷ []) ≡ connected 7 4
unfolding get get_from on_handshake shrink grow
grows = refl

get-IsBetween_example :
    IsBetween one_to_four (capacity_of (get one_to_four 3 (stale ∷ fresh ∷ good ∷ [])))
get-IsBetween_example =
    get-IsBetween one_to_four 3 (stale ∷ fresh ∷ good ∷ [])
      (record { lower = omega arith; upper = omega arith; positive = omega arith }) (omega arith)
