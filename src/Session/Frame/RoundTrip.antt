-- ===== src/Session/Frame/RoundTrip.antt =====
-- shuttle/src/session/frame.rs: decoding undoes encoding.
use noisy_shuttle.Base.{
  ℕ, ◌≤◌, ◌<◌, ◌≡◌, refl, ap, List, [], ◌∷◌, ◌++◌, none, some, arith, length, length-append,
  take-append, get_or-append, u16_to_be, u16_from_be, u16_from_be-to_be, u32_from_be-to_be, ◌∙◌,
}
use noisy_shuttle.Results.{ok}
use noisy_shuttle.Session.Frame.{
  Frame, client_hello, open_request, data_frame, end_request, reset, ping, pong, close, IsFrame,
  payload, encode, decode, decode_payload, decode_open_request, max_frame_payload,
}

pub decode_open_request_lem :
    (cmd atyp hi lo : ℕ) (addr : List ℕ)
    → decode_open_request (cmd ∷ atyp ∷ (addr ++ (hi ∷ lo ∷ [])))
      ≡ ok (open_request cmd atyp addr (u16_from_be hi lo))
unfolding decode_open_request
decode_open_request_lem cmd atyp hi lo addr = ground (
  arith,
  length-append addr (hi ∷ lo ∷ []),
  take-append addr (hi ∷ lo ∷ []),
  get_or-append (cmd ∷ atyp ∷ addr) (hi ∷ lo ∷ []) 0 0,
  get_or-append (cmd ∷ atyp ∷ addr) (hi ∷ lo ∷ []) 1 0,
)

-- Each arm of the decoder rebuilds the frame whose payload it is given.
pub decode_payload-payload :
    (f : Frame) → IsFrame f → decode_payload (payload f).0 (payload f).1 ≡ ok f
unfolding decode_payload payload
decode_payload-payload (client_hello version capabilities) h =
    ap (λ c. ok (client_hello version c)) (u16_from_be-to_be capabilities h.1)
decode_payload-payload (open_request cmd atyp addr port) h =
    decode_open_request_lem cmd atyp _ _ addr
    ∙ ap (λ p. ok (open_request cmd atyp addr p)) (u16_from_be-to_be port h.3)
decode_payload-payload (data_frame bytes) h = refl
decode_payload-payload (end_request reason) h = refl
decode_payload-payload (reset reason) h = refl
decode_payload-payload (ping token) h = ap (λ t. ok (ping t)) (u32_from_be-to_be token h)
decode_payload-payload (pong token) h = ap (λ t. ok (pong t)) (u32_from_be-to_be token h)
decode_payload-payload (close reason) h = refl

-- A header and a payload of the length it names, with anything behind, reach the `match`.
pub decode_header :
    (frame_type : ℕ) (bytes rest : List ℕ)
    → length bytes ≤ max_frame_payload
    → decode (frame_type ∷ (u16_to_be (length bytes) ++ bytes) ++ rest)
      ≡ decode_payload frame_type bytes
unfolding decode
decode_header frame_type bytes rest h =
    ground
      (arith, u16_from_be-to_be (length bytes), length-append bytes rest, take-append bytes rest)

-- What a successful encoding appends, and that only an oversized payload prevents one.
pub encode-eq-some :
    (f : Frame) (buf : List ℕ) {bytes : List ℕ}
    → encode f buf ≡ some bytes
    → (length (payload f).1 ≤ max_frame_payload)
      × (bytes ≡ buf ++ ((payload f).0 ∷ (u16_to_be (length (payload f).1) ++ (payload f).1)))
unfolding encode
encode-eq-some f buf e = ground arith

pub encode_fits :
    (f : Frame) (buf : List ℕ)
    → length (payload f).1 ≤ max_frame_payload
    → encode f buf
      ≡ some (buf ++ ((payload f).0 ∷ (u16_to_be (length (payload f).1) ++ (payload f).1)))
unfolding encode
encode_fits f buf h = ground arith

pub encode_oversized :
    (f : Frame) (buf : List ℕ) → max_frame_payload < length (payload f).1 → encode f buf ≡ none
unfolding encode
encode_oversized f buf h = ground arith

-- The bytes of a well-typed frame, with anything behind them, decode to that frame.
pub decode-encode :
    (f : Frame) (bytes rest : List ℕ)
    → IsFrame f
    → encode f [] ≡ some bytes
    → decode (bytes ++ rest) ≡ ok f
decode-encode f bytes rest h e =
    let (fits, shape) = encode-eq-some f [] e in
    rw shape (decode_header (payload f).0 (payload f).1 rest fits ∙ decode_payload-payload f h)
