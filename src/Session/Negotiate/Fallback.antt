-- ===== src/Session/Negotiate/Fallback.antt =====
-- shuttle/src/session/negotiate.rs: the tracker that warns once for each endpoint.
use Prim.Native.String.{String}
use text.Mathlib.Text.{◌==◌}
use text.Mathlib.TextEquality.{eq_iff}
use noisy_shuttle.Base.{ℕ, suc, ◌≡◌, Bool, true, false, ◌||◌, List, [], ◌∷◌, arith, if◌then◌else◌}

-- The `HashSet` of endpoints that were warned about.
pub record FallbackTracker : Type 0 where
  pub warned : List String

unfoldable pub contains : List String → String → Bool
contains [] x = false
contains (y ∷ ys) x = y == x || contains ys x

unfoldable pub new : FallbackTracker
new = record { warned = [] }

-- The tracker afterwards, and whether the warning was logged.
unfoldable pub warn_fallback : FallbackTracker → String → FallbackTracker × Bool
unfolding contains
warn_fallback t endpoint =
    if contains t.warned endpoint
    then (t, false)
    else (record { warned = endpoint ∷ t.warned }, true)

-- The endpoints for which a sequence of calls logs a warning.
unfoldable pub warnings : FallbackTracker → List String → List String
warnings t [] = []
warnings t (e ∷ es) =
    let (t', logged) = warn_fallback t e in
    let rest = warnings t' es in if logged then e ∷ rest else rest

unfoldable pub count : List String → String → ℕ
count [] x = 0
count (y ∷ ys) x = let n = count ys x in if y == x then suc n else n

warnings_from :
    (t : FallbackTracker) (es : List String) (x : String)
    → count (warnings t es) x ≡ (if contains t.warned x then 0 else if contains es x then 1 else 0)
unfolding warnings warn_fallback count contains
warnings_from t [] x = ground arith
warnings_from t (e ∷ es) x =
    ground (
      arith,
      eq_iff e x,
      warnings_from t es x,
      warnings_from (record { warned = e ∷ t.warned }) es x,
    )

-- However often an endpoint falls back, it is warned about once, and one that never falls back is
-- not warned about.
pub warnings_once :
    (es : List String) (x : String) → count (warnings new es) x ≡ (if contains es x then 1 else 0)
unfolding new contains
warnings_once es x = warnings_from new es x
