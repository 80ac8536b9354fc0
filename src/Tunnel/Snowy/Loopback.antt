-- ===== src/Tunnel/Snowy/Loopback.antt =====
-- A socket, a Noise transport and a parser of records for the tests of tunnel/src/common.rs.
use noisy_shuttle.Base.{
  ℕ, zero, suc, ◌+◌, ◌-◌, ◌≤◌, ◌<◌, ◌≡◌, refl, sym, ap, ◌∙◌, true, false, List, [], ◌∷◌, ◌++◌, none,
  some, arith, length, take, drop, min, ltb, if◌then◌else◌, take-append-drop, length-append,
  length-take, take-append, u16_from_be, u16_from_be-to_be,
}
use noisy_shuttle.Results.{Result, ok, err}
use noisy_shuttle.Tunnel.Snowy.{
  ready, Socket, SocketLaws, Noise, NoiseLaws, RecordParser, ParserLaws, MessageError, too_short,
  tls_record, maximum_ciphertext_length,
}

-- A socket that takes at most seven bytes at a time, and gives at most seven.
abbrev pub sevens : Socket
sevens = record {
  Sock = List ℕ × List ℕ;
  poll_read = λ room s. (ready (ok (take (min 7 room) s.1)), (s.0, drop (min 7 room) s.1));
  poll_write = λ bytes s.
      (ready (ok (min 7 (length bytes))), (s.0 ++ take (min 7 (length bytes)) bytes, s.1));
  poll_flush = λ s. (ready (ok tt), s);
  poll_shutdown = λ s. (ready (ok tt), s);
}

abbrev pub sevens_laws : SocketLaws sevens
sevens_laws = record {
  sent = λ s. s.0;
  arriving = λ s. s.1;
  write_taken = λ bytes s n e.
      let q : min 7 (length bytes) ≡ n = cc in (omega (arith, q), ap (λ j. s.0 ++ take j bytes) q);
  write_failed = λ bytes s x e. cc;
  write_pending = λ bytes s e. cc;
  read_taken = λ room s bytes e.
      let q : take (min 7 room) s.1 ≡ bytes = cc in
      (
        omega (arith, ap length q, length-take (min 7 room) s.1),
        sym (take-append-drop (min 7 room) s.1) ∙ ap (λ l. l ++ drop (min 7 room) s.1) q,
      );
  read_failed = λ room s x e. cc;
  read_pending = λ room s e. cc;
}

abbrev pub tag : List ℕ
tag = 0 ∷ 0 ∷ 0 ∷ 0 ∷ 0 ∷ 0 ∷ 0 ∷ 0 ∷ 0 ∷ 0 ∷ 0 ∷ 0 ∷ 0 ∷ 0 ∷ 0 ∷ 0 ∷ []

-- A transport that counts its messages and hides nothing.
abbrev pub open_noise : Noise
open_noise = record {
  State = ℕ;
  write_message = λ plain w. some (plain ++ tag, suc w);
  read_message =
      λ c r. if ltb (length c) 16 then (none, r) else (some (take (length c - 16) c), suc r);
  leftover = λ c r. take 40 (tag ++ tag ++ tag);
}

abbrev pub open_noise_laws : NoiseLaws open_noise
open_noise_laws = record {
  Paired = λ w r. w ≡ r;
  length_sealed = λ plain c w w' e.
      let q : plain ++ tag ≡ c = cc in omega (arith, ap length q, length-append plain tag);
  opened = λ plain c w w' r q e.
      let m : plain ++ tag ≡ c = cc in
      let after : suc w ≡ w' = cc in
      let len : length c ≡ length plain + 16 =
        omega (arith, ap length m, length-append plain tag) in
      let short : ltb (length c) 16 ≡ false = ground (arith, len) in
      let cut : take (length c - 16) c ≡ plain =
        ap (λ j. take j c) {x = length c - 16} {y = length plain} (omega (arith, len))
        ∙ ap (take (length plain)) (sym m)
        ∙ take-append plain tag in
      rw (short) (ap some cut, sym after ∙ ap suc q);
}

-- A record is whole when all of its payload is there.
abbrev pub parse_payload : ℕ → List ℕ → Result MessageError (List ℕ × ℕ)
parse_payload len rest =
    if ltb (length rest) len then err too_short else ok (take len rest, 5 + len)

abbrev pub parse_record : List ℕ → Result MessageError (List ℕ × ℕ)
parse_record (t ∷ a ∷ b ∷ h ∷ l ∷ rest) = parse_payload (u16_from_be h l) rest
parse_record _ = err too_short

abbrev pub plain_parser : RecordParser
plain_parser = record { parse = parse_record }

pub parse_payload-whole :
    (payload rest : List ℕ)
    → parse_payload (length payload) (payload ++ rest) ≡ ok (payload, 5 + length payload)
parse_payload-whole payload rest =
    let enough : ltb (length (payload ++ rest)) (length payload) ≡ false =
      ground (arith, length-append payload rest) in
    rw (enough) (ap (λ l. ok (l, 5 + length payload)) (take-append payload rest))

pub parse_record-part :
    (payload : List ℕ) (n : ℕ)
    → length payload ≤ maximum_ciphertext_length
    → n < length (tls_record payload)
    → parse_record (take n (tls_record payload)) ≡ err too_short
parse_record-part payload zero h f = refl
parse_record-part payload (suc zero) h f = refl
parse_record-part payload (suc (suc zero)) h f = refl
parse_record-part payload (suc (suc (suc zero))) h f = refl
parse_record-part payload (suc (suc (suc (suc zero)))) h f = refl
parse_record-part payload (suc (suc (suc (suc (suc n))))) h f =
    let len = u16_from_be-to_be (length payload) (omega (arith, h)) in
    let few : ltb (length (take n payload)) (length payload) ≡ true =
      ground (arith, length-take n payload) in
    ap (λ j. parse_payload j (take n payload)) len ∙ rw (few) refl

abbrev pub plain_parser_laws : ParserLaws plain_parser
plain_parser_laws = record {
  parse_whole = λ payload rest h.
      let len = u16_from_be-to_be (length payload) (omega (arith, h)) in
      let all : 5 + length payload ≡ length (tls_record payload) = omega arith in
      ap (λ j. parse_payload j (payload ++ rest)) len
      ∙ parse_payload-whole payload rest
      ∙ ap (λ j. ok (payload, j)) all;
  parse_part = λ payload n h f. parse_record-part payload n h f;
}
