-- ===== src/Session/Negotiate/Tests.antt =====
-- shuttle/src/session/negotiate.rs: examples of negotiations.
use noisy_shuttle.Base.{◌≡◌, refl, true, [], ◌∷◌, ◌++◌, some, arith}
use noisy_shuttle.Results.{ok, err}
use noisy_shuttle.Io.Pipe.{Pipe, pipe, pipe_laws, from_peer}
use noisy_shuttle.Session.Negotiate.{
  Capabilities, version_mismatch, negotiate_client, negotiate_server,
}
use noisy_shuttle.Session.Negotiate.Agreement.{
  hello, agreed, negotiate_server-refuses, negotiation_agrees,
}

abbrev both : Capabilities
both = record { bits = 3 }

abbrev reuse_only : Capabilities
reuse_only = record { bits = 1 }

abbrev client_stream : Pipe
client_stream = from_peer (hello reuse_only ++ [])

abbrev server_stream : Pipe
server_stream = from_peer (hello both ++ (5 ∷ []))

negotiation_agrees_example :
    (c s : Pipe) × (negotiate_client pipe both true client_stream
      ≡ some (ok (agreed both reuse_only), c))
    × (negotiate_server pipe reuse_only true server_stream ≡ some (ok (agreed both reuse_only), s))
    × (c.outgoing ≡ [] ++ hello both)
    × (s.outgoing ≡ [] ++ hello reuse_only)
negotiation_agrees_example =
    negotiation_agrees pipe pipe_laws client_stream server_stream both reuse_only [] (5 ∷ [])
      (omega arith) (omega arith) refl refl refl refl

abbrev later_client : Pipe
later_client = from_peer (0x01 ∷ 0 ∷ 3 ∷ 2 ∷ 0 ∷ 1 ∷ [])

negotiate_server-refuses_example :
    (t : Pipe) × (negotiate_server pipe both true later_client
      ≡ some (err (version_mismatch 2 1), t))
    × (t.outgoing ≡ [] ++ (0x08 ∷ 0 ∷ 1 ∷ 10 ∷ []))
negotiate_server-refuses_example =
    negotiate_server-refuses pipe pipe_laws later_client both 2 1 [] (omega arith) (omega arith)
      (omega arith) refl refl
