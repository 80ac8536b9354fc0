-- ===== src/Tunnel/Snowy/Drain.antt =====
-- tunnel/src/common.rs: the inner loop of `poll_write` moves bytes to the socket, and changes none.
use mathlib.Core.List.{append_assoc}
use noisy_shuttle.Base.{
  ℕ, zero, suc, ◌+◌, ◌≤◌, ◌==◌, ◌≡◌, refl, sym, ap, ◌∙◌, List, ◌++◌, arith, length, take, ltb,
  Bool-cases, inl, inr, drop-add, take-append-drop, length-drop,
}
use noisy_shuttle.Results.{Result, ok, err}
use noisy_shuttle.Io.{IoError}
use noisy_shuttle.Tunnel.Snowy.{
  Poll, ready, pending, Socket, SocketLaws, Noise, SnowyStream, shutdown_write,
  maximum_ciphertext_length,
}
use noisy_shuttle.Tunnel.Snowy.Write.{
  Drained, flushed, stuck, failed, out_of_fuel, Stream, unsent, on_written, drain,
}

-- The buffer holds at most one record, and the socket took no more than it holds.
pub record IsBounded {K N : Type 0} (s : SnowyStream K N) : Type 0 where
  pub in_buffer : s.write_offset ≤ length s.write_buffer
  pub one_record : length s.write_buffer ≤ 5 + maximum_ciphertext_length

module _ (k : Socket) (n : Noise) (kl : SocketLaws k) where
  open k use {Sock}
  open n use {State}
  open kl use {sent, write_taken, write_failed, write_pending}

  -- What the socket took, and what it is still to take.
  abbrev pub wire : Stream k n → List ℕ
  wire s = sent s.socket ++ unsent k n s

  -- The same bytes on the wire, in other places.
  pub record Kept (s s' : Stream k n) : Type 0 where
    pub same_wire : wire s' ≡ wire s
    pub same_noise : s'.noise ≡ s.noise
    pub bounded : IsBounded s'

  abbrev pub Keeps : Stream k n → Drained (Stream k n) → Type 0
  Keeps s (flushed s') = Kept s s' × (length s'.write_buffer ≤ s'.write_offset)
  Keeps s (stuck s') = Kept s s'
  Keeps s (failed e s') = Kept s s'
  Keeps s out_of_fuel = Unit {0}

  Kept-trans : (s s' s'' : Stream k n) → Kept s s' → Kept s' s'' → Kept s s''
  Kept-trans s s' s'' a b = record {
    same_wire = b.same_wire ∙ a.same_wire;
    same_noise = b.same_noise ∙ a.same_noise;
    bounded = b.bounded;
  }

  Keeps-trans : (s s' : Stream k n) (r : Drained (Stream k n)) → Kept s s' → Keeps s' r → Keeps s r
  Keeps-trans s s' (flushed t) a b = (Kept-trans s s' t a b.0, b.1)
  Keeps-trans s s' (stuck t) a b = Kept-trans s s' t a b
  Keeps-trans s s' (failed e t) a b = Kept-trans s s' t a b
  Keeps-trans s s' out_of_fuel a b = tt

  same-socket :
      (s : Stream k n) (socket : Sock)
      → IsBounded s
      → sent socket ≡ sent s.socket
      → Kept s (record s { socket = socket })
  same-socket s socket b e = record {
    same_wire = ap (λ x. x ++ unsent k n s) e;
    same_noise = refl;
    bounded = record { in_buffer = b.in_buffer; one_record = b.one_record };
  }

  Kept-shutdown_write :
      (s s' : Stream k n) → Kept s s' → Kept s (record s' { state = shutdown_write s.state })
  Kept-shutdown_write s s' a = record {
    same_wire = a.same_wire;
    same_noise = a.same_noise;
    bounded = record { in_buffer = a.bounded.in_buffer; one_record = a.bounded.one_record };
  }

  on_written-Keeps :
      (s : Stream k n) (next : Stream k n → Drained (Stream k n))
      (p : Poll (Result IoError ℕ) × Sock)
      → IsBounded s
      → ((s' : Stream k n) → IsBounded s' → Keeps s' (next s'))
      → k.poll_write (unsent k n s) s.socket ≡ p
      → Keeps s (on_written k n s next p)
  unfolding on_written
  on_written-Keeps s next (ready (ok w), socket) b ih e =
      let (few, took) = write_taken (unsent k n s) s.socket w (ap (λ q. q.0) e) in
      let s' = record s { socket = socket; write_offset = s.write_offset + w } in
      let inside : s'.write_offset ≤ length s.write_buffer =
        omega (arith, few, length-drop s.write_offset s.write_buffer, b.in_buffer) in
      let moved : wire s' ≡ wire s =
        ap (λ x. x ++ unsent k n s') (ap (λ q. sent q.1) (sym e) ∙ took)
        ∙ append_assoc (sent s.socket) (take w (unsent k n s)) (unsent k n s')
        ∙ ap (λ l. sent s.socket ++ (take w (unsent k n s) ++ l))
            (drop-add s.write_offset w s.write_buffer)
        ∙ ap (λ l. sent s.socket ++ l) (take-append-drop w (unsent k n s)) in
      let kept : Kept s s' = record {
        same_wire = moved;
        same_noise = refl;
        bounded = record { in_buffer = inside; one_record = b.one_record };
      } in
      elim (Bool-cases (w == 0)) [
        | inl z ↦ rw (z) (Kept-shutdown_write s s' kept)
        | inr z ↦ rw (z) (Keeps-trans s s' (next s') kept (ih s' kept.bounded))
      ]
  on_written-Keeps s next (ready (err x), socket) b ih e =
      same-socket s socket b
        (ap (λ q. sent q.1) (sym e) ∙ write_failed (unsent k n s) s.socket x (ap (λ q. q.0) e))
  on_written-Keeps s next (pending, socket) b ih e =
      same-socket s socket b
        (ap (λ q. sent q.1) (sym e) ∙ write_pending (unsent k n s) s.socket (ap (λ q. q.0) e))

  pub drain-Keeps : (fuel : ℕ) (s : Stream k n) → IsBounded s → Keeps s (drain k n fuel s)
  unfolding drain
  drain-Keeps zero s b = tt
  drain-Keeps (suc fuel) s b = elim (Bool-cases (ltb s.write_offset (length s.write_buffer))) [
    | inl h ↦ rw (h) (
        on_written-Keeps s (drain k n fuel) (k.poll_write (unsent k n s) s.socket) b
          (drain-Keeps fuel) refl)
    | inr h ↦ rw (h) (record { same_wire = refl; same_noise = refl; bounded = b }, ground arith)
  ]
