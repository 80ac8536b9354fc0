-- ===== src/Trojan/Tests.antt =====
-- shuttle/src/trojan.rs: examples, with addresses of one byte.
use noisy_shuttle.Base.{ℕ, ◌≡◌, refl, List, [], ◌∷◌, ◌++◌, some, arith}
use noisy_shuttle.Results.{Result, ok, err}
use noisy_shuttle.Io.{IoError}
use noisy_shuttle.Io.Pipe.{Pipe, pipe, pipe_laws, from_peer}
use noisy_shuttle.Trojan.{
  cr, lf, udp_associate, to_u8, AddressCodec, AddressLaws, TrojanLikeRequest, write_at,
  encode_request, send_to, recv_from,
}
use noisy_shuttle.Trojan.RoundTrip.{recv_from-send_to}

abbrev first_byte : Result IoError (List ℕ) × Pipe → Result IoError ℕ × Pipe
first_byte (ok (b ∷ bytes), s) = (ok b, s)
first_byte (ok [], s) = (ok 0, s)
first_byte (err e, s) = (err e, s)

abbrev codec : AddressCodec pipe
codec = record {
  Address = ℕ;
  serialized_len = λ a. 1;
  serialized = λ a. a ∷ [];
  read = λ s. first_byte (pipe.read_exact 1 s);
}

read_first_byte :
    (s : Pipe) (a : ℕ) (rest : List ℕ)
    → s.incoming ≡ a ∷ rest
    → ((codec.read s).0 ≡ ok a) × ((codec.read s).1.incoming ≡ rest)
read_first_byte s a rest i = ground arith

codec_laws : AddressLaws pipe pipe_laws codec
codec_laws = record {
  IsWritable = λ a. Unit {0};
  length_serialized = λ a h. refl;
  read_serialized = λ s a rest h i. read_first_byte s a rest i;
}

abbrev request : TrojanLikeRequest ℕ
request = record { cmd = udp_associate; dest_addr = 77 }

encode_once :
    encode_request pipe codec request (0 ∷ 0 ∷ 0 ∷ 0 ∷ 5 ∷ []) ≡ some (3 ∷ 77 ∷ cr ∷ lf ∷ 5 ∷ [])
unfolding encode_request write_at to_u8
encode_once = refl

abbrev packet : List ℕ
packet = 77 ∷ 0 ∷ 2 ∷ 13 ∷ 10 ∷ 1 ∷ 2 ∷ []

send_once :
    send_to pipe codec (1 ∷ 2 ∷ []) 77 (from_peer [])
    ≡ (ok tt, record { incoming = []; outgoing = packet })
unfolding send_to
send_once = refl

recv_from-send_to_example :
    (t : Pipe) × (recv_from pipe codec 16 (from_peer (packet ++ (6 ∷ [])))
      ≡ some (ok (some (1 ∷ 2 ∷ [], 77)), t))
    × (t.incoming ≡ 6 ∷ [])
unfolding codec_laws
recv_from-send_to_example =
    recv_from-send_to pipe pipe_laws codec codec_laws (1 ∷ 2 ∷ []) 77 16 (from_peer [])
      (record { incoming = []; outgoing = packet }) (from_peer (packet ++ (6 ∷ []))) packet (6 ∷ [])
      tt (omega arith) (omega arith) send_once refl refl
