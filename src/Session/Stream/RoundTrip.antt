-- ===== src/Session/Stream/RoundTrip.antt =====
-- shuttle/src/session/frame.rs: frames written to a stream are read back, one by one.
use noisy_shuttle.Base.{
  get_or, ℕ, ◌≤◌, ◌<◌, ◌≡◌, refl, ap, ◌∙◌, sym, List, [], ◌∷◌, ◌++◌, none, ◌≢◌, some, arith, length,
  take, drop, length-append, take-append, drop-append, u16_to_be, u16_from_be, u16_from_be-to_be,
  All, zero, suc, length-take, Option-cases, inl, inr,
}
use mathlib.Core.List.{append_assoc, append-nil, append_cancel_left}
use noisy_shuttle.Results.{Result, ok, err, pair_of_fst, Result-cases}
use noisy_shuttle.Io.{IoError, unexpected_eof, Duplex, DuplexLaws}
use noisy_shuttle.Session.Frame.{Frame, io, IsFrame, payload, encode, decode, max_frame_payload}
use noisy_shuttle.Session.Frame.RoundTrip.{encode-eq-some, encode_fits, decode-encode}
use noisy_shuttle.Session.Stream.{read_frame, write_frame, read_payload, read_after_header}

-- A frame whose payload fits is written without a panic.
pub write_frame_fits :
    (d : Duplex) (f : Frame) (s : d.Stream)
    → length (payload f).1 ≤ max_frame_payload
    → write_frame d f s ≢ none
unfolding write_frame
write_frame_fits d f s fits e = ground (arith, encode_fits f [] fits)

module _ (d : Duplex) (laws : DuplexLaws d) where
  open d use {Stream, read_exact, write_all}
  open laws use {
    incoming, outgoing, read_enough, read_short, read_outgoing, write_outgoing, write_incoming,
  }

  read_payload-outgoing :
      (header : List ℕ) (r : Result IoError (List ℕ) × Stream)
      → outgoing (read_payload d header r).1 ≡ outgoing r.1
  unfolding read_payload
  read_payload-outgoing header (ok bytes, s) = refl
  read_payload-outgoing header (err e, s) = refl

  read_after_header-outgoing :
      (r : Result IoError (List ℕ) × Stream) → outgoing (read_after_header d r).1 ≡ outgoing r.1
  unfolding read_after_header
  read_after_header-outgoing (ok header, s) =
      let n = u16_from_be (get_or header 1 0) (get_or header 2 0) in
      read_payload-outgoing header (read_exact n s) ∙ read_outgoing n s
  read_after_header-outgoing (err e, s) = refl

  -- A read writes nothing, whatever it gives.
  pub read_frame-outgoing : (s : Stream) → outgoing (read_frame d s).1 ≡ outgoing s
  unfolding read_frame
  read_frame-outgoing s = read_after_header-outgoing (read_exact 3 s) ∙ read_outgoing 3 s

  -- The two reads of a frame, where the stream holds the whole of it.
  read_frame_steps :
      (s : Stream) (t a b : ℕ) (p rest : List ℕ)
      → incoming s ≡ t ∷ a ∷ b ∷ (p ++ rest)
      → length p ≡ u16_from_be a b
      → ((read_frame d s).0 ≡ decode (t ∷ a ∷ b ∷ p))
        × (incoming (read_frame d s).1 ≡ rest)
        × (outgoing (read_frame d s).1 ≡ outgoing s)
  unfolding read_frame
  read_frame_steps s t a b p rest e len =
      let h1 = read_enough 3 s (rw e (omega arith)) in
      let s1 = (read_exact 3 s).1 in
      let i1 : incoming s1 ≡ p ++ rest = h1.1 ∙ ap (drop 3) e in
      let h2 = read_enough (length p) s1 (rw i1 (omega (arith, length-append p rest))) in
      let first : read_exact 3 s ≡ (ok (t ∷ a ∷ b ∷ []), s1) =
        pair_of_fst (read_exact 3 s) (h1.0 ∙ ap (λ l. ok (take 3 l)) e) in
      let second : (read_exact (u16_from_be a b) s1).0 ≡ ok p =
        rw (← len) (h2.0 ∙ ap (λ l. ok (take (length p) l)) i1 ∙ ap ok (take-append p rest)) in
      let both : read_exact (u16_from_be a b) s1 ≡ (ok p, (read_exact (length p) s1).1) =
        pair_of_fst _ second ∙ ap (λ n. (ok p, (read_exact n s1).1)) (sym len) in
      rw (first, both)
        (
          refl,
          h2.1 ∙ ap (drop (length p)) i1 ∙ drop-append p rest,
          read_outgoing (length p) s1 ∙ read_outgoing 3 s,
        )

  cut_header : (s : Stream) → length (incoming s) < 3 → (read_frame d s).0 ≡ err (io unexpected_eof)
  unfolding read_frame
  cut_header s h = rw (pair_of_fst (read_exact 3 s) (read_short 3 s h))

  cut :
      (s : Stream) (t : ℕ) (p : List ℕ) (n : ℕ)
      → length p ≤ max_frame_payload
      → n < length (t ∷ (u16_to_be (length p) ++ p))
      → incoming s ≡ take n (t ∷ (u16_to_be (length p) ++ p))
      → (read_frame d s).0 ≡ err (io unexpected_eof)
  unfolding read_frame
  cut s t p zero fits short i = cut_header s (rw i (omega arith))
  cut s t p (suc zero) fits short i = cut_header s (rw i (omega arith))
  cut s t p (suc (suc zero)) fits short i = cut_header s (rw i (omega arith))
  cut s t p (suc (suc (suc n))) fits short i =
      let h1 = read_enough 3 s (rw i (omega arith)) in
      let s1 = (read_exact 3 s).1 in
      let i1 : incoming s1 ≡ take n p = h1.1 ∙ ap (drop 3) i in
      let first : read_exact 3 s ≡ (ok (take 3 (t ∷ (u16_to_be (length p) ++ p))), s1) =
        pair_of_fst (read_exact 3 s) (h1.0 ∙ ap (λ l. ok (take 3 l)) i) in
      let second : (read_exact (length p) s1).0 ≡ err unexpected_eof =
        read_short (length p) s1 (rw i1 (omega (arith, length-take n p, short))) in
      let word = u16_from_be-to_be (length p) (omega arith) in
      let third = pair_of_fst (read_exact (length p) s1) second in rw (first, word, third)

  -- A frame that the peer wrote is read back, what follows it stays in the stream, and nothing is
  -- written.
  pub read_frame-encode :
      (s : Stream) (f : Frame) (bytes rest : List ℕ)
      → IsFrame f
      → encode f [] ≡ some bytes
      → incoming s ≡ bytes ++ rest
      → ((read_frame d s).0 ≡ ok f)
        × (incoming (read_frame d s).1 ≡ rest)
        × (outgoing (read_frame d s).1 ≡ outgoing s)
  read_frame-encode s f bytes rest h e i =
      let (fits, shape) = encode-eq-some f [] e in
      let p = (payload f).1 in
      let steps =
        read_frame_steps s (payload f).0 _ _ p rest (i ∙ ap (λ l. l ++ rest) shape)
          (sym (u16_from_be-to_be (length p) (omega arith))) in
      let whole : decode ((payload f).0 ∷ (u16_to_be (length p) ++ p)) ≡ ok f =
        ap decode (sym (append-nil bytes ∙ shape)) ∙ decode-encode f bytes [] h e in
      (steps.0 ∙ whole, steps.1, steps.2)

  -- A stream that ends inside a frame gives an end-of-file error, wherever it is cut.
  pub read_frame_truncated :
      (s : Stream) (f : Frame) (bytes : List ℕ) (n : ℕ)
      → encode f [] ≡ some bytes
      → n < length bytes
      → incoming s ≡ take n bytes
      → (read_frame d s).0 ≡ err (io unexpected_eof)
  read_frame_truncated s f bytes n e short i =
      let (fits, shape) = encode-eq-some f [] e in
      cut s (payload f).0 (payload f).1 n fits (rw shape at short) (i ∙ ap (take n) shape)

  -- The write of an encoded frame, where the stream takes it.
  pub write_frame-ok :
      (s : Stream) (f : Frame) (bytes : List ℕ)
      → encode f [] ≡ some bytes
      → (write_all bytes s).0 ≡ ok tt
      → write_frame d f s ≡ some (ok tt, (write_all bytes s).1)
  unfolding write_frame
  write_frame-ok s f bytes e w = rw (e, pair_of_fst (write_all bytes s) w)

  -- A successful write has appended the frame's encoding, and nothing else, to what was sent.
  pub write_frame-eq-ok :
      (s t : Stream) (f : Frame)
      → write_frame d f s ≡ some (ok tt, t)
      → (bytes : List ℕ) × (encode f [] ≡ some bytes) × (outgoing t ≡ outgoing s ++ bytes)
  unfolding write_frame
  write_frame-eq-ok s t f e = elim (Option-cases (encode f [])) [
    | inl p ↦ absurd (ground arith)
    | inr (bytes, some_bytes) ↦ (
      bytes,
      some_bytes,
      ground (arith, write_outgoing bytes s, Result-cases (write_all bytes s).0),
    )
  ]

  -- Calls of `write_frame`, each of them successful, and of `read_frame`, each with its result.
  pub data Writes : Stream → List Frame → Stream → Type 0 where
    written : {s : Stream} → Writes s [] s
    write :
        {s t u : Stream} {f : Frame} {fs : List Frame}
        → write_frame d f s ≡ some (ok tt, t)
        → Writes t fs u
        → Writes s (f ∷ fs) u

  pub data Reads : Stream → List Frame → Stream → Type 0 where
    finished : {s : Stream} → Reads s [] s
    read :
        {s t u : Stream} {f : Frame} {fs : List Frame}
        → read_frame d s ≡ (ok f, t)
        → Reads t fs u
        → Reads s (f ∷ fs) u

  Writes-sent :
      (fs : List Frame) {s t : Stream}
      → All IsFrame fs
      → Writes s fs t
      → (sent : List ℕ) × (outgoing t ≡ outgoing s ++ sent)
        × ((r : Stream) (rest : List ℕ)
            → incoming r ≡ sent ++ rest
            → (u : Stream) × Reads r fs u × (incoming u ≡ rest))
  Writes-sent [] h written = ([], sym (append-nil _), λ r rest e. (r, finished, e))
  Writes-sent (f ∷ fs) {s = s} h (write {t = t} w ws) =
      let (bytes, e, now) = write_frame-eq-ok s t f w in
      let (sent, later, back) = Writes-sent fs h.1 ws in
      (
        bytes ++ sent,
        later ∙ ap (λ l. l ++ sent) now ∙ append_assoc _ bytes sent,
        λ r rest i.
            let one =
              read_frame-encode r f bytes (sent ++ rest) h.0 e (i ∙ append_assoc bytes sent rest) in
            let (u, rs, left) = back (read_frame d r).1 rest one.1 in
            (u, read (pair_of_fst (read_frame d r) one.0) rs, left),
      )

  -- Frames with fields in range that were all written without an error are read from the other end
  -- in the same order, and what was sent after them is left in the stream.
  pub Writes-Reads :
      {w w' : Stream} (r : Stream) (fs : List Frame) (sent rest : List ℕ)
      → All IsFrame fs
      → Writes w fs w'
      → outgoing w' ≡ outgoing w ++ sent
      → incoming r ≡ sent ++ rest
      → (r' : Stream) × Reads r fs r' × (incoming r' ≡ rest)
  Writes-Reads {w} r fs sent rest h ws o i =
      let (sent', o', back) = Writes-sent fs h ws in
      let same : sent ≡ sent' = append_cancel_left (outgoing w) sent sent' (sym o ∙ o') in
      back r rest (i ∙ ap (λ l. l ++ rest) same)
