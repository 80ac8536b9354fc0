-- ===== src/Tunnel/Snowy/Tests.antt =====
-- Runs and examples of tunnel/src/common.rs.
use noisy_shuttle.Base.{ℕ, suc, ◌≡◌, refl, List, [], ◌∷◌, ◌++◌, arith, take, drop, inr}
use noisy_shuttle.Results.{ok, err}
use noisy_shuttle.Io.{invalid_data, write_zero}
use noisy_shuttle.Tunnel.Snowy.{
  ready, pending, Socket, returned, unfinished, stream, tls_record, buffered_plaintext, readable,
  writeable,
}
use noisy_shuttle.Tunnel.Snowy.Loopback.{
  sevens, sevens_laws, tag, open_noise, open_noise_laws, plain_parser, plain_parser_laws,
}
use noisy_shuttle.Tunnel.Snowy.Write.{
  Stream, write_loop, drain, on_written, after_drain, clear_written, in_record, encode_record,
  poll_write, poll_flush_stream,
}
use noisy_shuttle.Tunnel.Snowy.Read.{poll_read_stream}
use noisy_shuttle.Tunnel.Snowy.Drain.{IsBounded}
use noisy_shuttle.Tunnel.Snowy.Commit.{Committed, poll_write-Commits}
use noisy_shuttle.Tunnel.Snowy.Progress.{Returns, poll_write-Returns, poll_flush-unfinished, shut}
use noisy_shuttle.Tunnel.Snowy.Records.{nothing, seal}
use noisy_shuttle.Tunnel.Snowy.Inbound.{Inbound}
use noisy_shuttle.Tunnel.Snowy.Wire.{Fresh, poll_write-poll_read}
use noisy_shuttle.Tunnel.Snowy.Deliver.{Delivered, poll_read-Delivers}
use noisy_shuttle.Tunnel.Snowy.Leftover.{spoiled, poll_read-spoiled}

abbrev text : List ℕ
text = 104 ∷ 105 ∷ 33 ∷ []

-- A stream that nothing has gone through; its message counter is at 5.
abbrev writer : Stream sevens open_noise
writer = record {
  socket = ([], []);
  noise = 5;
  state = stream;
  capacity = 18437;
  pending_read = [];
  read_buffer = [];
  read_offset = 0;
  write_buffer = [];
  write_offset = 0;
}

writer-IsBounded : IsBounded writer
writer-IsBounded = record { in_buffer = omega arith; one_record = omega arith }

-- What `poll_write` leaves: four rounds of seven bytes take a record of twenty-four.
abbrev written : Stream sevens open_noise
written = record writer { socket = (tls_record (text ++ tag), []); noise = 6 }

-- The other end, which gets the first ten bytes of the record.
abbrev reader : Stream sevens open_noise
reader = record writer { socket = ([], take 10 (tls_record (text ++ tag))) }

abbrev reader_whole : Stream sevens open_noise
reader_whole = record writer { socket = ([], tls_record (text ++ tag)) }

write_text : poll_write sevens open_noise 20000 10 text writer ≡ returned (ready (ok 3)) written
unfolding poll_write write_loop drain on_written after_drain clear_written in_record encode_record
    writeable
write_text = refl

poll_write-Commits_example :
    Committed sevens open_noise sevens_laws open_noise_laws writer text 0
      (poll_write sevens open_noise 20000 10 text writer)
poll_write-Commits_example =
    poll_write-Commits sevens open_noise sevens_laws open_noise_laws 20000 10 text writer
      writer-IsBounded

poll_write-Returns_example : Returns (poll_write sevens open_noise 20000 10 text writer)
poll_write-Returns_example =
    poll_write-Returns sevens open_noise open_noise_laws
      (λ plain w h. (plain ++ tag, (suc w, refl))) 20000 10 text writer (omega arith) (omega arith)
      writer-IsBounded

-- A socket that takes nothing.
abbrev deaf : Socket
deaf = record {
  Sock = Unit {0};
  poll_read = λ room s. (pending, s);
  poll_write = λ bytes s. (ready (ok 0), s);
  poll_flush = λ s. (ready (ok tt), s);
  poll_shutdown = λ s. (ready (ok tt), s);
}

abbrev held : Stream deaf open_noise
held = record {
  socket = tt;
  noise = 5;
  state = stream;
  capacity = 18437;
  pending_read = [];
  read_buffer = [];
  read_offset = 0;
  write_buffer = tls_record (text ++ tag);
  write_offset = 4;
}

poll_flush-unfinished_example :
    (poll_flush_stream deaf open_noise 9 held ≡ unfinished)
    × (poll_write deaf open_noise 9 9 text held
        ≡ returned (ready (err write_zero)) (shut deaf open_noise held))
unfolding writeable
poll_flush-unfinished_example =
    poll_flush-unfinished deaf open_noise 9 8 8 text held (λ bytes s. refl) (omega arith) refl

reader-Fresh :
    Fresh sevens open_noise plain_parser sevens_laws open_noise_laws plain_parser_laws [] writer
      written reader
reader-Fresh = record {
  future = drop 10 (tls_record (text ++ tag));
  paired = refl;
  at_start = refl;
  no_plaintext = refl;
  nothing_read = refl;
  before_it = refl;
  arrived = refl;
}

poll_write-poll_read_example :
    Delivered sevens open_noise plain_parser sevens_laws open_noise_laws plain_parser_laws 2 18437
      text
      (poll_read_stream sevens open_noise plain_parser 20000 20000 2 reader)
poll_write-poll_read_example =
    poll_write-poll_read sevens open_noise plain_parser sevens_laws open_noise_laws
      plain_parser_laws 20000 10 20000 20000 2 writer written reader text [] 3 writer-IsBounded
      write_text reader-Fresh (omega arith) (omega arith)

reader_whole-Inbound :
    Inbound sevens open_noise plain_parser sevens_laws open_noise_laws reader_whole text
unfolding buffered_plaintext
reader_whole-Inbound = record {
  peer = 5;
  peer_end = 6;
  chunks = text ∷ [];
  bytes = tls_record (text ++ tag);
  future = [];
  paired = refl;
  sealed = seal text (text ++ tag) (omega arith) (omega arith) refl nothing refl;
  on_wire = refl;
  text = refl;
  in_capacity = omega arith;
  offset_ok = inr refl;
}

poll_read-Delivers_example :
    Delivered sevens open_noise plain_parser sevens_laws open_noise_laws plain_parser_laws 2 18437
      text
      (poll_read_stream sevens open_noise plain_parser 20000 20000 2 reader_whole)
poll_read-Delivers_example =
    poll_read-Delivers sevens open_noise plain_parser sevens_laws open_noise_laws plain_parser_laws
      20000 20000 2 reader_whole text (omega arith) (omega arith) reader_whole-Inbound

-- A record of eight bytes, which are no message.
abbrev garbled : Stream sevens open_noise
garbled = record writer { pending_read = tls_record (take 8 tag) }

poll_read-spoiled_example :
    (poll_read_stream sevens open_noise plain_parser 9 9 3 garbled
      ≡ returned
          (ready (err invalid_data))
          ([], spoiled sevens open_noise plain_parser (take 8 tag) 13 garbled))
    × (poll_read_stream sevens open_noise plain_parser 9 9 3
          (spoiled sevens open_noise plain_parser (take 8 tag) 13 garbled)
        ≡ returned (ready (ok tt)) (
          0 ∷ 0 ∷ 0 ∷ [],
          record (spoiled sevens open_noise plain_parser (take 8 tag) 13 garbled) {
            read_offset = 3;
          },
        ))
unfolding readable
poll_read-spoiled_example =
    poll_read-spoiled sevens open_noise plain_parser 8 8 3 13 (take 8 tag) garbled refl refl refl
      refl (omega arith) refl (omega arith)
