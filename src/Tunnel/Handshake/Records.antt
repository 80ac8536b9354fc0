-- ===== src/Tunnel/Handshake/Records.antt =====
-- tunnel/src/utils.rs: what `read_tls_message` takes from a stream.
use mathlib.Core.List.{append_assoc}
use noisy_shuttle.Base.{
  ℕ, ◌≤◌, ◌<◌, ◌≡◌, refl, sym, ap, ◌∙◌, List, ◌++◌, none, some, arith, length, take, drop, leb,
  Bool-cases, inl, inr, take-append-drop, length-take, length-append, take-append, drop-append,
}
use noisy_shuttle.Results.{Result, ok, err, pair_of_fst}
use noisy_shuttle.Io.{IoError, Duplex, DuplexLaws}
use noisy_shuttle.Tunnel.Handshake.{
  Tls, RecordFault, header_fault, payload_len, read_body, read_header, read_tls_message,
}

module _ (d : Duplex) (laws : DuplexLaws d) where
  open d use {Stream, read_exact}
  open laws use {incoming, outgoing, read_enough, read_short, read_outgoing}

  pub read_exact-takes :
      (n : ℕ) (s t : Stream) (bytes : List ℕ)
      → read_exact n s ≡ (ok bytes, t)
      → (incoming s ≡ bytes ++ incoming t) × (outgoing t ≡ outgoing s) × (length bytes ≡ n)
  read_exact-takes n s t bytes e = elim (Bool-cases (leb n (length (incoming s)))) [
    | inl h ↦
        let fits : n ≤ length (incoming s) = ground arith in
        let (got, left) = read_enough n s fits in
        let first : read_exact n s ≡ (ok bytes, t) = e in
        let same : take n (incoming s) ≡ bytes = cc in
        let rest : incoming t ≡ drop n (incoming s) = sym (ap (λ q. incoming q.1) e) ∙ left in
        let written : outgoing t ≡ outgoing s =
          sym (ap (λ q. outgoing q.1) e) ∙ read_outgoing n s in
        (
          sym (take-append-drop n (incoming s))
              ∙ ap (λ l. l ++ drop n (incoming s)) same
              ∙ ap (λ l. bytes ++ l) (sym rest),
          written,
          omega (arith, length-take n (incoming s), ap length same, fits),
        )
    | inr h ↦
        (let few : length (incoming s) < n = ground arith in
          let short = read_short n s few in absurd cc)
  ]

  -- What stands first in the stream is read.
  pub reads_first :
      (n : ℕ) (s : Stream) (xs ys : List ℕ)
      → incoming s ≡ xs ++ ys
      → length xs ≡ n
      → (s' : Stream) × (read_exact n s ≡ (ok xs, s')) × (incoming s' ≡ ys)
  reads_first n s xs ys i l =
      let enough : n ≤ length (incoming s) = omega (arith, ap length i, length-append xs ys, l) in
      let (got, left) = read_enough n s enough in
      let first : take n (incoming s) ≡ xs =
        ap (λ k. take k (incoming s)) (sym l) ∙ ap (take (length xs)) i ∙ take-append xs ys in
      let rest : drop n (incoming s) ≡ ys =
        ap (λ k. drop k (incoming s)) (sym l) ∙ ap (drop (length xs)) i ∙ drop-append xs ys in
      ((read_exact n s).1, pair_of_fst (read_exact n s) (got ∙ ap ok first), left ∙ rest)

  -- What a call of `read_tls_message` took: the record, which is then in the buffer, or the header of
  -- one that is refused, which is in no buffer.
  abbrev pub Takes :
      Stream → List ℕ → Result IoError (Result RecordFault (Unit {0})) × List ℕ × Stream → Type 0
  Takes s buf (err e, buf', t) = Unit {0}
  Takes s buf (ok (ok u), buf', t) = (incoming s ≡ buf' ++ incoming t) × (outgoing t ≡ outgoing s)
  Takes s buf (ok (err fault), buf', t) =
      (buf' ≡ buf)
      × (outgoing t ≡ outgoing s)
      × (header : List ℕ) × (length header ≡ 5)
      × (incoming s ≡ header ++ incoming t)

  read_body-Takes :
      (s s' : Stream) (buf header : List ℕ) (r : Result IoError (List ℕ) × Stream)
      → incoming s ≡ header ++ incoming s'
      → outgoing s' ≡ outgoing s
      → d.read_exact (payload_len header) s' ≡ r
      → Takes s buf (read_body d header r)
  unfolding read_body
  read_body-Takes s s' buf header (ok payload, t) i o e =
      let (j, k, len) = read_exact-takes (payload_len header) s' t payload e in
      (i ∙ ap (λ l. header ++ l) j ∙ sym (append_assoc header payload (incoming t)), k ∙ o)
  read_body-Takes s s' buf header (err x, t) i o e = tt

  read_header-Takes :
      (tls : Tls) (s : Stream) (buf : List ℕ) (r : Result IoError (List ℕ) × Stream)
      → read_exact 5 s ≡ r
      → Takes s buf (read_header d tls buf r)
  unfolding read_header
  read_header-Takes tls s buf (err x, t) e = tt
  read_header-Takes tls s buf (ok header, t) e =
      let (i, o, len) = read_exact-takes 5 s t header e in
      elim (header_fault tls header)
        as (λ f. Takes s buf (elim f [
          | some fault ↦ (ok (err fault), buf, t)
          | none ↦ read_body d header (read_exact (payload_len header) t)
        ])) [
          | some fault ↦ (refl, o, header, len, i)
          | none ↦ read_body-Takes s t buf header (read_exact (payload_len header) t) i o refl
        ]

  pub read_tls_message-Takes :
      (tls : Tls) (s : Stream) (buf : List ℕ) → Takes s buf (read_tls_message d tls buf s)
  unfolding read_tls_message
  read_tls_message-Takes tls s buf = read_header-Takes tls s buf (read_exact 5 s) refl

  -- A header, and as many bytes as it announces.
  abbrev pub IsMessage : List ℕ → Type 0
  IsMessage buf =
      (header : List ℕ) × (body : List ℕ) × (buf ≡ header ++ body)
      × (length header ≡ 5)
      × (length body ≡ payload_len header)

  -- What is in the buffer after a call of `read_tls_message` without an error.
  abbrev pub Holds : Result IoError (Result RecordFault (Unit {0})) × List ℕ × Stream → Type 0
  Holds (ok (ok u), buf, t) = IsMessage buf
  Holds _ = Unit {0}

  read_body-Holds :
      (s : Stream) (header : List ℕ) (r : Result IoError (List ℕ) × Stream)
      → length header ≡ 5
      → read_exact (payload_len header) s ≡ r
      → Holds (read_body d header r)
  unfolding read_body
  read_body-Holds s header (ok payload, t) l e =
      (header, payload, refl, l, (read_exact-takes (payload_len header) s t payload e).2)
  read_body-Holds s header (err x, t) l e = tt

  read_header-Holds :
      (tls : Tls) (s : Stream) (buf : List ℕ) (r : Result IoError (List ℕ) × Stream)
      → read_exact 5 s ≡ r
      → Holds (read_header d tls buf r)
  unfolding read_header
  read_header-Holds tls s buf (err x, t) e = tt
  read_header-Holds tls s buf (ok header, t) e =
      elim (header_fault tls header)
        as (λ f. Holds (elim f [
          | some fault ↦ (ok (err fault), buf, t)
          | none ↦ read_body d header (read_exact (payload_len header) t)
        ])) [
          | some fault ↦ tt
          | none ↦
              read_body-Holds t header (read_exact (payload_len header) t)
                (read_exact-takes 5 s t header e).2 refl
        ]

  pub read_tls_message-Holds :
      (tls : Tls) (s : Stream) (buf : List ℕ) → Holds (read_tls_message d tls buf s)
  unfolding read_tls_message
  read_tls_message-Holds tls s buf = read_header-Holds tls s buf (read_exact 5 s) refl
