-- ===== src/Session/Negotiate/Agreement.antt =====
-- shuttle/src/session/negotiate.rs: client and server agree, and what a refused client sees.
use noisy_shuttle.Base.{
  ℕ, ◌/◌, ◌<◌, ◌≡◌, refl, ap, ◌∙◌, true, ◌&&◌, List, [], ◌∷◌, ◌++◌, some, arith, lt→leb_false,
  bit_and, IsU8, IsU16, u16_to_be,
}
use noisy_shuttle.Base.Bits.{bit_and-halves, bit_and_bit0, bit_and_bit1}
use noisy_shuttle.Results.{ok, err, pair_of_fst}
use noisy_shuttle.Io.{Duplex, DuplexLaws}
use noisy_shuttle.Session.Frame.{client_hello, close, encode, protocol_version}
use noisy_shuttle.Session.Stream.{read_frame}
use noisy_shuttle.Session.Stream.RoundTrip.{read_frame-encode, write_frame-ok}
use noisy_shuttle.Session.Negotiate.{
  Capabilities, NegotiatedCapabilities, version_mismatch, reuse, keepalive, intersect,
  from_intersect, negotiate_client, negotiate_server,
}

-- A capability is shared exactly when both sides have it.
pub reuse-intersect : (a b : Capabilities) → reuse (intersect a b) ≡ (reuse a && reuse b)
unfolding reuse intersect
reuse-intersect a b = ground (
  arith,
  bit_and_bit0 (bit_and a.bits b.bits),
  bit_and_bit0 a.bits,
  bit_and_bit0 b.bits,
  bit_and-halves a.bits b.bits,
)

pub keepalive-intersect :
    (a b : Capabilities) → keepalive (intersect a b) ≡ (keepalive a && keepalive b)
unfolding keepalive intersect
keepalive-intersect a b = ground (
  arith,
  bit_and_bit1 (bit_and a.bits b.bits),
  bit_and_bit1 a.bits,
  bit_and_bit1 b.bits,
  bit_and-halves a.bits b.bits,
  bit_and-halves (a.bits / 2) (b.bits / 2),
)

-- The bytes of a hello of this protocol version.
abbrev pub hello : Capabilities → List ℕ
hello c = 0x01 ∷ 0 ∷ 3 ∷ protocol_version ∷ u16_to_be c.bits

pub encode-hello :
    (c : Capabilities) → encode (client_hello protocol_version c.bits) [] ≡ some (hello c)
unfolding encode
encode-hello c = refl

-- What both sides have, at this protocol version.
unfoldable pub agreed : Capabilities → Capabilities → NegotiatedCapabilities
agreed a b = record {
  reuse = reuse a && reuse b;
  keepalive = keepalive a && keepalive b;
  server_version = protocol_version;
}

from_intersect-agreed : (a b : Capabilities) → from_intersect a b protocol_version ≡ agreed a b
unfolding from_intersect agreed
from_intersect-agreed a b = ground (arith, reuse-intersect a b, keepalive-intersect a b)

module _ (d : Duplex) (laws : DuplexLaws d) where
  open d use {Stream, write_all}
  open laws use {incoming, outgoing, write_outgoing, write_incoming}

  -- Where the answer to its hello is a hello, the client ends with what both sides have.
  pub negotiate_client-agreed :
      (s : Stream) (mine theirs : Capabilities) (rest : List ℕ)
      → IsU16 theirs.bits
      → incoming s ≡ hello theirs ++ rest
      → (write_all (hello mine) s).0 ≡ ok tt
      → (t : Stream) × (negotiate_client d mine true s ≡ some (ok (agreed mine theirs), t))
        × (outgoing t ≡ outgoing s ++ hello mine)
        × (incoming t ≡ rest)
  unfolding negotiate_client
  negotiate_client-agreed s mine theirs rest h i w =
      let s1 = (write_all (hello mine) s).1 in
      let sent = write_frame-ok d laws s _ (hello mine) (encode-hello mine) w in
      let got =
        read_frame-encode d laws s1 (client_hello protocol_version theirs.bits) (hello theirs) rest
          (omega arith, h) (encode-hello theirs) (write_incoming (hello mine) s ∙ i) in
      (
        (read_frame d s1).1,
        rw (sent, pair_of_fst (read_frame d s1) got.0)
            (ap (λ n. some (ok n, (read_frame d s1).1)) (from_intersect-agreed mine theirs)),
        got.2 ∙ write_outgoing (hello mine) s w,
        got.1,
      )

  -- The server answers a hello with its own, and ends with what both sides have.
  pub negotiate_server-agreed :
      (s : Stream) (mine theirs : Capabilities) (rest : List ℕ)
      → IsU16 theirs.bits
      → incoming s ≡ hello theirs ++ rest
      → (write_all (hello mine) (read_frame d s).1).0 ≡ ok tt
      → (t : Stream) × (negotiate_server d mine true s ≡ some (ok (agreed theirs mine), t))
        × (outgoing t ≡ outgoing s ++ hello mine)
        × (incoming t ≡ rest)
  unfolding negotiate_server
  negotiate_server-agreed s mine theirs rest h i w =
      let got =
        read_frame-encode d laws s (client_hello protocol_version theirs.bits) (hello theirs) rest
          (omega arith, h) (encode-hello theirs) i in
      let s1 = (read_frame d s).1 in
      let sent = write_frame-ok d laws s1 _ (hello mine) (encode-hello mine) w in
      (
        (write_all (hello mine) s1).1,
        rw (pair_of_fst (read_frame d s) got.0, sent)
            (ap (λ n. some (ok n, (write_all (hello mine) s1).1))
              (from_intersect-agreed theirs mine)),
        write_outgoing (hello mine) s1 w ∙ ap (λ l. l ++ hello mine) got.2,
        write_incoming (hello mine) s1 ∙ got.1,
      )

  -- A client of a later version, whose hello is read in time, is sent a close frame with the
  -- reason 10, where the write succeeds, and is refused.
  pub negotiate_server-refuses :
      (s : Stream) (mine : Capabilities) (version capabilities : ℕ) (rest : List ℕ)
      → IsU8 version
      → IsU16 capabilities
      → protocol_version < version
      → incoming s ≡ 0x01 ∷ 0 ∷ 3 ∷ version ∷ (u16_to_be capabilities ++ rest)
      → (write_all (0x08 ∷ 0 ∷ 1 ∷ 10 ∷ []) (read_frame d s).1).0 ≡ ok tt
      → (t : Stream) × (negotiate_server d mine true s
          ≡ some (err (version_mismatch version protocol_version), t))
        × (outgoing t ≡ outgoing s ++ (0x08 ∷ 0 ∷ 1 ∷ 10 ∷ []))
  unfolding negotiate_server
  negotiate_server-refuses s mine version capabilities rest h k newer i w =
      let bytes : List ℕ = 0x01 ∷ 0 ∷ 3 ∷ version ∷ u16_to_be capabilities in
      let enc : encode (client_hello version capabilities) [] ≡ some bytes =
        unfold encode in refl in
      let enc_close : encode (close 10) [] ≡ some (0x08 ∷ 0 ∷ 1 ∷ 10 ∷ []) =
        unfold encode in refl in
      let got =
        read_frame-encode d laws s (client_hello version capabilities) bytes rest (h, k) enc i in
      let s1 = (read_frame d s).1 in
      let sent = write_frame-ok d laws s1 (close 10) _ enc_close w in
      (
        (write_all (0x08 ∷ 0 ∷ 1 ∷ 10 ∷ []) s1).1,
        rw (pair_of_fst (read_frame d s) got.0)
            (rw (lt→leb_false version protocol_version newer) (rw sent refl)),
        write_outgoing _ s1 w ∙ ap (λ l. l ++ (0x08 ∷ 0 ∷ 1 ∷ 10 ∷ [])) got.2,
      )

  -- Client and server, each of which reads the other's hello of this protocol version in time and
  -- whose writes succeed, end with the same capabilities: those that both have. Each has sent its
  -- hello and nothing else.
  pub negotiation_agrees :
      (c s : Stream) (client_caps server_caps : Capabilities) (rest rest' : List ℕ)
      → IsU16 client_caps.bits
      → IsU16 server_caps.bits
      → incoming c ≡ hello server_caps ++ rest
      → incoming s ≡ hello client_caps ++ rest'
      → (write_all (hello client_caps) c).0 ≡ ok tt
      → (write_all (hello server_caps) (read_frame d s).1).0 ≡ ok tt
      → (c' s' : Stream) × (negotiate_client d client_caps true c
          ≡ some (ok (agreed client_caps server_caps), c'))
        × (negotiate_server d server_caps true s ≡ some (ok (agreed client_caps server_caps), s'))
        × (outgoing c' ≡ outgoing c ++ hello client_caps)
        × (outgoing s' ≡ outgoing s ++ hello server_caps)
  negotiation_agrees c s cc sc rest rest' h k i j w v =
      let (c', rc, oc, _) = negotiate_client-agreed c cc sc rest k i w in
      let (s', rs, os, _) = negotiate_server-agreed s sc cc rest' h j v in (c', s', rc, rs, oc, os)
