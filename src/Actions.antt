-- ===== src/Actions.antt =====
-- Async code over a stream: a call returns its result and the stream after it, or panics (`none`).
use noisy_shuttle.Base.{Option, none, some}
use noisy_shuttle.Results.{Result, ok, err, map_err}

abbrev pub Action : Type 0 → Type 0 → Type 0 → Type 0
Action S E A = S → Option (Result E A × S)

-- What follows an action: a panic and an error end the call.
abbrev pub and_then :
    {S E A B : Type 0} → Option (Result E A × S) → (A → Action S E B) → Option (Result E B × S)
and_then none f = none
and_then (some (ok a, s)) f = f a s
and_then (some (err e, s)) f = some (err e, s)

infixl 5 ◌>>=◌ ◌>>◌
abbrev pub ◌>>=◌ : {S E A B : Type 0} → Action S E A → (A → Action S E B) → Action S E B
◌>>=◌ m f s = and_then (m s) f

abbrev pub ◌>>◌ : {S E B : Type 0} → Action S E (Unit {0}) → Action S E B → Action S E B
m >> k = m >>= λ _. k

abbrev pub done : {S E A : Type 0} → Result E A → Action S E A
done r s = some (r, s)

-- `?` on an error of another type, which `From` converts.
abbrev pub convert :
    {S E F A : Type 0} → (E → F) → Option (Result E A × S) → Option (Result F A × S)
convert from none = none
convert from (some (r, s)) = some (map_err from r, s)
