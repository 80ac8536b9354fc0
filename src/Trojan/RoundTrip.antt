-- ===== src/Trojan/RoundTrip.antt =====
-- shuttle/src/trojan.rs: what was written is read back.
use noisy_shuttle.Base.{
  ℕ, ◌/◌, ◌%◌, ◌≤◌, ◌<◌, ◌≡◌, refl, ap, sym, ◌∙◌, List, [], ◌∷◌, ◌++◌, some, arith, length, take,
  drop, u16_to_be, u16_from_be, take-append, drop-append, length-append, lt→ltb,
}
use mathlib.Core.List.{append_assoc, append_cancel_left}
use noisy_shuttle.Results.{Result, ok, err, pair_of_fst}
use noisy_shuttle.Io.{IoError, Duplex, DuplexLaws}
use noisy_shuttle.Trojan.{
  cr, lf, Cmd, connect, udp_associate, to_u8, from_u8, AddressCodec, AddressLaws, TrojanLikeRequest,
  then_read, read_u8, read_u16, read_request_after, read_trojan_like_request, send_to, recv_data,
  recv_crlf, recv_len, recv_addr, recv_from,
}

module _ (d : Duplex) (laws : DuplexLaws d) (codec : AddressCodec d)
    (addresses : AddressLaws d laws codec) where
  open d use {Stream, read_exact, write_all}
  open laws use {incoming, outgoing, read_enough, write_outgoing}
  open codec use {Address, serialized, read}
  open addresses use {IsWritable, read_serialized}

  -- A read of exactly what stands first in the stream.
  read_first :
      (s : Stream) (bytes rest : List ℕ)
      → incoming s ≡ bytes ++ rest
      → (read_exact (length bytes) s ≡ (ok bytes, (read_exact (length bytes) s).1))
        × (incoming (read_exact (length bytes) s).1 ≡ rest)
  read_first s bytes rest i =
      let enough : length bytes ≤ length (incoming s) =
        rw i (omega (arith, length-append bytes rest)) in
      let h = read_enough (length bytes) s enough in
      (
        pair_of_fst (read_exact (length bytes) s)
            (h.0 ∙ ap (λ l. ok (take (length bytes) l)) i ∙ ap ok (take-append bytes rest)),
        h.1 ∙ ap (drop (length bytes)) i ∙ drop-append bytes rest,
      )

  read_u8-ok :
      (s : Stream) (b : ℕ) (rest : List ℕ)
      → incoming s ≡ b ∷ rest
      → (read_u8 d codec s ≡ (ok b, (read_exact 1 s).1)) × (incoming (read_exact 1 s).1 ≡ rest)
  unfolding read_u8
  read_u8-ok s b rest i = let (e, left) = read_first s (b ∷ []) rest i in (rw e refl, left)

  read_u16-ok :
      (s : Stream) (a b : ℕ) (rest : List ℕ)
      → incoming s ≡ a ∷ b ∷ rest
      → (read_u16 d codec s ≡ (ok (u16_from_be a b), (read_exact 2 s).1))
        × (incoming (read_exact 2 s).1 ≡ rest)
  unfolding read_u16
  read_u16-ok s a b rest i = let (e, left) = read_first s (a ∷ b ∷ []) rest i in (rw e refl, left)

  from_u8-to_u8 : (c : Cmd) → from_u8 (to_u8 c) ≡ some c
  unfolding from_u8 to_u8
  from_u8-to_u8 connect = refl
  from_u8-to_u8 udp_associate = refl

  -- A request that stands first in the stream, its command and address followed by CR and LF, is
  -- read as it was written, and what follows it is left in the stream.
  pub read_written_request :
      (r : TrojanLikeRequest Address) (s : Stream) (rest : List ℕ)
      → IsWritable r.dest_addr
      → incoming s ≡ to_u8 r.cmd ∷ (serialized r.dest_addr ++ (cr ∷ lf ∷ rest))
      → (t : Stream) × (read_trojan_like_request d codec s ≡ (ok r, t)) × (incoming t ≡ rest)
  unfolding read_trojan_like_request read_request_after
  read_written_request r s rest w i =
      let (e1, i1) = read_u8-ok s (to_u8 r.cmd) _ i in
      let s1 = (read_exact 1 s).1 in
      let got = read_serialized s1 r.dest_addr _ w i1 in
      let s2 = (read s1).1 in
      let (e3, i3) = read_u16-ok s2 cr lf rest got.1 in
      ((read_exact 2 s2).1, rw (e1, from_u8-to_u8 r.cmd, pair_of_fst (read s1) got.0, e3) refl, i3)

  then_read-ok :
      {S : Type 0} (p : Result IoError (Unit {0}) × S)
      (f : Unit {0} → S → Result IoError (Unit {0}) × S) (t : S)
      → then_read p f ≡ (ok tt, t)
      → (p.0 ≡ ok tt) × (f tt p.1 ≡ (ok tt, t))
  then_read-ok (ok u, s) f t e = (refl, e)
  then_read-ok (err x, s) f t e = absurd (ground arith)

  -- A packet that was sent without an error is on the wire.
  send_to-ok :
      (bytes : List ℕ) (addr : Address) (s t : Stream)
      → send_to d codec bytes addr s ≡ (ok tt, t)
      → outgoing t
        ≡ outgoing s ++ (serialized addr ++ (u16_to_be (length bytes % 65536) ++ (cr ∷ lf ∷ bytes)))
  unfolding send_to
  send_to-ok bytes addr s t e =
      let size = u16_to_be (length bytes % 65536) in
      let (a, e1) = then_read-ok (write_all (serialized addr) s) _ t e in
      let s1 = (write_all (serialized addr) s).1 in
      let (b, e2) = then_read-ok (write_all size s1) _ t e1 in
      let s2 = (write_all size s1).1 in
      let (c, e3) = then_read-ok (write_all (cr ∷ lf ∷ []) s2) _ t e2 in
      let s3 = (write_all (cr ∷ lf ∷ []) s2).1 in
      let last : outgoing t ≡ outgoing s3 ++ bytes =
        sym (ap (λ p. outgoing p.1) e3) ∙ write_outgoing bytes s3 (ap (λ p. p.0) e3) in
      let o = outgoing s in
      let p1 = ap (λ l. l ++ size) (write_outgoing (serialized addr) s a) in
      let p2 = ap (λ l. l ++ (cr ∷ lf ∷ [])) (write_outgoing size s1 b ∙ p1) in
      let p3 = ap (λ l. l ++ bytes) (write_outgoing (cr ∷ lf ∷ []) s2 c ∙ p2) in
      last
      ∙ p3
      ∙ append_assoc ((o ++ serialized addr) ++ size) (cr ∷ lf ∷ []) bytes
      ∙ append_assoc (o ++ serialized addr) size (cr ∷ lf ∷ bytes)
      ∙ append_assoc o (serialized addr) (size ++ (cr ∷ lf ∷ bytes))

  -- A packet that was sent without an error, of at most 65535 bytes and fewer than the receiver's
  -- buffer, is received with its bytes and its address, and what follows it is left in the stream.
  pub recv_from-send_to :
      (bytes : List ℕ) (addr : Address) (room : ℕ) (w w' r : Stream) (sent rest : List ℕ)
      → IsWritable addr
      → length bytes ≤ 65535
      → length bytes < room
      → send_to d codec bytes addr w ≡ (ok tt, w')
      → outgoing w' ≡ outgoing w ++ sent
      → incoming r ≡ sent ++ rest
      → (t : Stream) × (recv_from d codec room r ≡ some (ok (some (bytes, addr)), t))
        × (incoming t ≡ rest)
  unfolding recv_from recv_addr recv_len recv_crlf recv_data
  recv_from-send_to bytes addr room w w' r sent rest can short fits e o i =
      let n = length bytes in
      let size = u16_to_be (n % 65536) in
      let shape : sent ≡ serialized addr ++ (size ++ (cr ∷ lf ∷ bytes)) =
        append_cancel_left (outgoing w) sent _ (sym o ∙ send_to-ok bytes addr w w' e) in
      let layout : incoming r ≡ serialized addr ++ (size ++ (cr ∷ lf ∷ (bytes ++ rest))) =
        i ∙ ap (λ l. l ++ rest) shape ∙ append_assoc (serialized addr) _ rest in
      let got = read_serialized r addr _ can layout in
      let s1 = (read r).1 in
      let (e1, i1) = read_u16-ok s1 _ _ _ got.1 in
      let word : u16_from_be (n % 65536 / 256 % 256) (n % 65536 % 256) ≡ n = omega (arith, short) in
      let s2 = (read_exact 2 s1).1 in
      let (e2, i2) = read_u16-ok s2 cr lf _ i1 in
      let s3 = (read_exact 2 s2).1 in
      let (e3, i3) = read_first s3 bytes rest i2 in
      (
        (read_exact n s3).1,
        rw (pair_of_fst (read r) got.0, e1, word, e2, lt→ltb n room fits, e3) refl,
        i3,
      )
