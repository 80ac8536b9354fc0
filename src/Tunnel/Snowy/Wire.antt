-- ===== src/Tunnel/Snowy/Wire.antt =====
-- tunnel/src/common.rs: two `SnowyStream`s, one of which writes what the other reads.
use noisy_shuttle.Base.{
  ℕ, ◌+◌, ◌-◌, ◌<◌, ◌≡◌, sym, ap, ◌∙◌, subst, List, [], ◌++◌, arith, length, take, drop, inr,
  drop-append, drop-nil,
}
use noisy_shuttle.Results.{ok}
use noisy_shuttle.Tunnel.Snowy.{
  ready, Socket, SocketLaws, Noise, NoiseLaws, returned, RecordParser, ParserLaws,
  buffered_plaintext, maximum_ciphertext_length,
}
use noisy_shuttle.Tunnel.Snowy.Write.{Stream, poll_write}
use noisy_shuttle.Tunnel.Snowy.Read.{poll_read_stream}
use noisy_shuttle.Tunnel.Snowy.Drain.{IsBounded, wire}
use noisy_shuttle.Tunnel.Snowy.Commit.{Commits, Committed, poll_write-Commits}
use noisy_shuttle.Tunnel.Snowy.Records.{concat}
use noisy_shuttle.Tunnel.Snowy.Inbound.{Inbound}
use noisy_shuttle.Tunnel.Snowy.Deliver.{Delivered, poll_read-Delivers}

module _ (k : Socket) (n : Noise) (p : RecordParser) (kl : SocketLaws k) (nl : NoiseLaws n)
    (pl : ParserLaws p) where
  open kl use {arriving}
  open nl use {Paired}

  -- A stream that has read nothing yet and whose peer is at the same point: `before ++ arrived` is
  -- what the peer has put on the wire, and `before` was there before.
  pub record Fresh (before : List ℕ) (s s' r : Stream k n) : Type 0 where
    pub future : List ℕ
    pub paired : Paired s.noise r.noise
    pub at_start : r.read_offset ≡ 0
    pub no_plaintext : r.read_buffer ≡ []
    pub nothing_read : r.pending_read ≡ []
    pub before_it : wire k n kl s ≡ before
    pub arrived : before ++ (arriving r.socket ++ future) ≡ wire k n kl s'

  Commits-Inbound :
      (s s' r : Stream k n) (buf before : List ℕ) (m : ℕ)
      → Commits k n kl nl s buf 0 m s'
      → Fresh before s s' r
      → Inbound k n p kl nl r (take m buf)
  unfolding buffered_plaintext
  Commits-Inbound s s' r buf before m c f = record {
    peer = s.noise;
    peer_end = s'.noise;
    chunks = c.chunks;
    bytes = c.bytes;
    future = f.future;
    paired = f.paired;
    sealed = c.sealed;
    on_wire =
        ap (λ l. l ++ (arriving r.socket ++ f.future)) f.nothing_read
        ∙ sym (drop-append before (arriving r.socket ++ f.future))
        ∙ ap (drop (length before)) (f.arrived ∙ c.on_wire ∙ ap (λ l. l ++ c.bytes) f.before_it)
        ∙ drop-append before c.bytes;
    text =
        ap (λ b. drop r.read_offset b ++ concat c.chunks) f.no_plaintext
        ∙ ap (λ l. l ++ concat c.chunks) (drop-nil r.read_offset)
        ∙ c.text
        ∙ ap (λ j. take j buf) {x = m - 0} {y = m} (omega arith);
    in_capacity = omega (arith, ap length f.nothing_read);
    offset_ok = inr f.at_start;
  }

  -- The bytes of `buf` that a writer has accepted are what its peer reads: each poll of the peer
  -- gives the next of them, in order and none lost, and still holds or awaits the others, however the
  -- socket cuts what is written and what is read.
  pub poll_write-poll_read :
      (inner outer rounds fuel size : ℕ) (s s' r : Stream k n) (buf before : List ℕ) (m : ℕ)
      → IsBounded s
      → poll_write k n inner outer buf s ≡ returned (ready (ok m)) s'
      → Fresh before s s' r
      → r.capacity < rounds
      → 5 + maximum_ciphertext_length < fuel
      → Delivered k n p kl nl pl size r.capacity
          (take m buf)
          (poll_read_stream k n p rounds fuel size r)
  poll_write-poll_read inner outer rounds fuel size s s' r buf before m b w f l e =
      let c : Commits k n kl nl s buf 0 m s' =
        subst (Committed k n kl nl s buf 0) w (poll_write-Commits k n kl nl inner outer buf s b) in
      poll_read-Delivers k n p kl nl pl rounds fuel size r (take m buf) l e
        (Commits-Inbound s s' r buf before m c f)
