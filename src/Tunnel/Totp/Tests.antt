-- ===== src/Tunnel/Totp/Tests.antt =====
-- tunnel/src/totp.rs: examples of tokens, with a hash that returns its input.
use noisy_shuttle.Base.{ℕ, ◌≡◌, refl, ◌*◌, ◌↔◌, true, List, [], ◌∷◌, some, arith}
use noisy_shuttle.Tunnel.Totp.{Totp, generate, sign, hash, verify, search, step_time, same_bytes}
use noisy_shuttle.Tunnel.Totp.Window.{InRange, InWindow, verify_iff}

abbrev same : List ℕ → List ℕ
same bytes = bytes

abbrev totp : Totp
totp = record { key = 1 ∷ 2 ∷ []; step = 60; skew = 2 }

totp-InRange : InRange totp 600
totp-InRange = omega arith

-- A clock in the first slot: the window starts before zero and wraps around.
early_clock : verify same (record totp { skew = 1 }) [] (sign same totp 4 0 []) 4 0 ≡ some true
unfolding verify sign generate hash search step_time same_bytes
early_clock = refl

verify_iff_example :
    (verify same totp (7 ∷ []) (9 ∷ []) 4 600 ≡ some true)
    ↔ ((slot : ℕ) × InWindow totp 600 slot × (sign same totp 4 (slot * 60) (7 ∷ []) ≡ 9 ∷ []))
verify_iff_example = verify_iff same totp (7 ∷ []) (9 ∷ []) 4 600 totp-InRange
