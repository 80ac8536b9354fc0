-- ===== src/Client/Plain/Sent.antt =====
-- shuttle/src/client/plain.rs: what a relay of the client puts on the session's stream.
use noisy_shuttle.Base.{ℕ, ◌≤◌, ◌≡◌, Bool, true, false, List, [], ◌++◌, Option, none, some, length}
use noisy_shuttle.Results.{Result, ok}
use noisy_shuttle.Io.{IoError, Duplex, DuplexLaws}
use noisy_shuttle.Client.Pool.{wrap64}
use noisy_shuttle.Session.Frame.{Frame, data_frame, end_request, pong, encode, max_frame_payload}
use noisy_shuttle.Session.Lifecycle.Reason.{discriminant, client_close}
use noisy_shuttle.Client.Plain.Frames.{
  ClientRelay, ClientEvent, inbound_ready, Progress, running, finished, failed, panicked,
  first_packet,
}

-- A stream of frames: the bytes of the data frames, in order, and whether an EndRequest with
-- ClientClose has ended them, after which there is no data. Pongs may stand anywhere.
pub data Framed : List ℕ → List ℕ → Bool → Type 0 where
  start : Framed [] [] false
  with_data :
      {wire text : List ℕ} (bytes e : List ℕ)
      → Framed wire text false
      → encode (data_frame bytes) [] ≡ some e
      → Framed (wire ++ e) (text ++ bytes) false
  with_end :
      {wire text : List ℕ} (e : List ℕ)
      → Framed wire text false
      → encode (end_request (discriminant client_close)) [] ≡ some e
      → Framed (wire ++ e) text true
  with_pong :
      {wire text : List ℕ} {ended : Bool} (token : ℕ) (e : List ℕ)
      → Framed wire text ended
      → encode (pong token) [] ≡ some e
      → Framed (wire ++ e) text ended

-- The buffer that the client's socket is read into has 16 KiB.
abbrev pub Fits : ClientEvent → Type 0
Fits (inbound_ready taken (ok bytes)) = length bytes ≤ 16384
Fits _ = Unit {0}

abbrev pub FirstFits : Option (List ℕ) → Option (Result IoError (List ℕ)) → Type 0
FirstFits none first = Unit {0}
FirstFits (some outbuf) first = length (first_packet outbuf first) ≤ max_frame_payload

module _ (d : Duplex) (laws : DuplexLaws d) where
  open d use {Stream}
  open laws use {outgoing, read_outgoing, write_outgoing}

  -- After `before`, the session's stream carries the client's bytes.
  pub record RelayInv (before : List ℕ) (r : ClientRelay Stream) : Type 0 where
    pub wire : List ℕ
    pub framed : Framed wire r.from_client r.client_closed
    pub on_stream : outgoing r.stream ≡ before ++ wire
    pub sent_count : r.tx ≡ wrap64 (length r.from_client)
    pub received_count : r.rx ≡ wrap64 (length r.to_client)

  abbrev pub IsSound : List ℕ → Progress Stream → Type 0
  IsSound before (running r) = RelayInv before r
  IsSound before (finished r) = RelayInv before r
  IsSound before (failed e r) = Unit {0}
  IsSound before panicked = ⊥
