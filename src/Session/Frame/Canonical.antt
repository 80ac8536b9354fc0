-- ===== src/Session/Frame/Canonical.antt =====
-- shuttle/src/session/frame.rs: what the decoder accepts is the encoding of what it returns.
use noisy_shuttle.Base.{
  ℕ, zero, suc, ◌+◌, ◌-◌, ◌≤◌, ◌≡◌, refl, ap, List, [], ◌∷◌, ◌++◌, some, arith, length, get_or,
  take, drop, All, IsU8, u16_to_be, u16_from_be, ◌∙◌, sym, length-take, take-append-drop,
}
use native.Mathlib.Decide.{dec_lt}
use noisy_shuttle.Results.{ok}
use noisy_shuttle.Session.Frame.{
  Frame, open_request, payload, encode, decode, decode_payload, decode_open_request,
  max_frame_payload, frame_open_request,
}
use noisy_shuttle.Session.Frame.RoundTrip.{encode_fits, decode_open_request_lem}

-- A list two longer than `n` is its first `n` entries and its last two.
last_two :
    (q : List ℕ) (n : ℕ)
    → length q ≡ n + 2
    → q ≡ take n q ++ (get_or q n 0 ∷ get_or q (suc n) 0 ∷ [])
last_two [] n h = absurd (omega arith)
last_two (a ∷ []) n h = absurd (omega arith)
last_two (a ∷ b ∷ []) zero h = refl
last_two (a ∷ b ∷ c ∷ q) zero h = absurd (omega arith)
last_two (a ∷ b ∷ q) (suc n) h = ap (◌∷◌ a) (last_two (b ∷ q) n (omega arith))

u16_to_be-from_be : (a b : ℕ) → IsU8 a → IsU8 b → u16_to_be (u16_from_be a b) ≡ a ∷ b ∷ []
u16_to_be-from_be a b h k = ground arith

All-get_or : (q : List ℕ) (i : ℕ) → All IsU8 q → IsU8 (get_or q i 0)
All-get_or [] i h = omega arith
All-get_or (a ∷ q) zero h = h.0
All-get_or (a ∷ q) (suc i) h = All-get_or q i h.1

payload-decode_open_request_long :
    (f : Frame) (a b : ℕ) (q : List ℕ) (n : ℕ)
    → All IsU8 q
    → length q ≡ n + 2
    → decode_open_request (a ∷ b ∷ q) ≡ ok f
    → payload f ≡ (frame_open_request, a ∷ b ∷ q)
unfolding payload
payload-decode_open_request_long f a b q n h len e =
    let hi = get_or q n 0 in
    let lo = get_or q (suc n) 0 in
    let g = open_request a b (take n q) (u16_from_be hi lo) in
    let found : decode_open_request (a ∷ b ∷ q) ≡ ok g =
      ap (λ r. decode_open_request (a ∷ b ∷ r)) (last_two q n len)
      ∙ decode_open_request_lem a b hi lo (take n q) in
    let same : f ≡ g = cc in
    rw same (
      ap (λ r. (frame_open_request, a ∷ b ∷ r))
        (ap (◌++◌ (take n q)) (u16_to_be-from_be hi lo (All-get_or q n h) (All-get_or q (suc n) h))
          ∙ sym (last_two q n len)))

payload-decode_open_request :
    (f : Frame) (bytes : List ℕ)
    → All IsU8 bytes
    → decode_open_request bytes ≡ ok f
    → payload f ≡ (frame_open_request, bytes)
unfolding decode_open_request payload
payload-decode_open_request f (a ∷ b ∷ q) h e = elim (dec_lt (length q) 2) [
  | yes short ↦ ground arith
  | no long ↦ payload-decode_open_request_long f a b q (length q - 2) h.1.1 (omega arith) e
]
payload-decode_open_request f bytes h e = ground arith

payload-decode_payload :
    (f : Frame) (frame_type : ℕ) (bytes : List ℕ)
    → All IsU8 bytes
    → decode_payload frame_type bytes ≡ ok f
    → payload f ≡ (frame_type, bytes)
unfolding decode_payload payload
payload-decode_payload f t [] h e = ground (arith, payload-decode_open_request f [] h)
payload-decode_payload f t (a ∷ []) h e = ground (arith, payload-decode_open_request f (a ∷ []) h)
payload-decode_payload f t (a ∷ b ∷ []) h e =
    ground (arith, payload-decode_open_request f (a ∷ b ∷ []) h)
payload-decode_payload f t (a ∷ b ∷ c ∷ []) h e =
    ground (arith, payload-decode_open_request f (a ∷ b ∷ c ∷ []) h)
payload-decode_payload f t (a ∷ b ∷ c ∷ d ∷ []) h e =
    ground (arith, payload-decode_open_request f (a ∷ b ∷ c ∷ d ∷ []) h)
payload-decode_payload f t (a ∷ b ∷ c ∷ d ∷ x ∷ r) h e =
    ground (arith, payload-decode_open_request f (a ∷ b ∷ c ∷ d ∷ x ∷ r) h)

All-take : (n : ℕ) (xs : List ℕ) → All IsU8 xs → All IsU8 (take n xs)
All-take zero xs h = tt
All-take (suc n) [] h = tt
All-take (suc n) (x ∷ xs) h = (h.0, All-take n xs h.1)

-- Bytes that the decoder accepts begin with the encoding of the frame that it returns.
pub encode-decode :
    (bytes : List ℕ) (f : Frame)
    → All IsU8 bytes
    → decode bytes ≡ ok f
    → (rest : List ℕ) × (encoded : List ℕ) × (encode f [] ≡ some encoded)
      × (bytes ≡ encoded ++ rest)
unfolding decode
encode-decode [] f h e = ground arith
encode-decode (t ∷ []) f h e = ground arith
encode-decode (t ∷ a ∷ []) f h e = ground arith
encode-decode (t ∷ a ∷ b ∷ more) f h e =
    let n = u16_from_be a b in
    let p = take n more in
    let enough : n ≤ length more = ground arith in
    let len : length p ≡ n = omega (arith, length-take n more) in
    let shape : payload f ≡ (t, p) =
      payload-decode_payload f t p (All-take n more h.1.1.1) (ground arith) in
    let header : u16_to_be (length p) ≡ a ∷ b ∷ [] =
      ap u16_to_be len ∙ u16_to_be-from_be a b h.1.0 h.1.1.0 in
    let fits : length (payload f).1 ≤ max_frame_payload =
      rw shape (omega (arith, h.1.0, h.1.1.0)) in
    (
      drop n more,
      t ∷ a ∷ b ∷ p,
      encode_fits f [] fits ∙ rw shape (ap (λ l. some (t ∷ (l ++ p))) header),
      ap (λ r. t ∷ a ∷ b ∷ r) (sym (take-append-drop n more)),
    )
