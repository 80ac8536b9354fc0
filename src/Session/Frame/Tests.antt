-- ===== src/Session/Frame/Tests.antt =====
-- shuttle/src/session/frame.rs: examples of the frame codec.
use noisy_shuttle.Base.{ℕ, ◌≡◌, refl, List, [], ◌∷◌, ◌++◌, some, arith}
use noisy_shuttle.Results.{ok}
use noisy_shuttle.Session.Frame.{Frame, open_request, ping, encode, decode, payload}
use noisy_shuttle.Session.Frame.RoundTrip.{decode-encode}
use noisy_shuttle.Session.Frame.Canonical.{encode-decode}

abbrev request : Frame
request = open_request 1 3 (0x61 ∷ 0x62 ∷ []) 443

abbrev request_bytes : List ℕ
request_bytes = 0x02 ∷ 0 ∷ 6 ∷ 1 ∷ 3 ∷ 0x61 ∷ 0x62 ∷ 1 ∷ 0xbb ∷ []

encode-request : encode request [] ≡ some request_bytes
unfolding encode payload
encode-request = refl

decode_ping : decode (0x06 ∷ 0 ∷ 4 ∷ 0 ∷ 0 ∷ 1 ∷ 2 ∷ []) ≡ ok (ping 258)
unfolding decode
decode_ping = refl

decode-encode_example : decode (request_bytes ++ (9 ∷ [])) ≡ ok request
decode-encode_example = decode-encode request request_bytes (9 ∷ []) (omega arith) encode-request

encode-decode_example :
    (rest : List ℕ) × (encoded : List ℕ) × (encode (ping 258) [] ≡ some encoded)
    × (0x06 ∷ 0 ∷ 4 ∷ 0 ∷ 0 ∷ 1 ∷ 2 ∷ [] ≡ encoded ++ rest)
encode-decode_example =
    encode-decode (0x06 ∷ 0 ∷ 4 ∷ 0 ∷ 0 ∷ 1 ∷ 2 ∷ []) (ping 258) (omega arith) decode_ping
