-- ===== src/Client/Plain.antt =====
-- shuttle/src/client/plain.rs: the request of a connection, as the trojan header that the client puts
-- in front of what it sends.
pub mod Header
pub mod Frames
pub mod Sent
pub mod Reusable
pub mod Balance
mod Tests
use noisy_shuttle.Base.{
  ℕ, ◌+◌, ◌-◌, ◌==◌, ltb, leb, if◌then◌else◌, Bool, true, false, List, [], ◌∷◌, Option, none, some,
  length, take, drop, get_or, u16_from_be,
}
use noisy_shuttle.Results.{Result, ok, err, ◌>>=◌}
use noisy_shuttle.Session.Frame.{Frame, open_request}

-- An index out of range is a panic, the others are errors.
pub data HeaderError : Type 0 where
  no_request truncated_header out_of_range : HeaderError
  unsupported_atyp : ℕ → HeaderError

abbrev pub domain_range : List ℕ → Result HeaderError (ℕ × ℕ)
domain_range [] = err out_of_range
domain_range (len ∷ rest) = ok (3, 3 + len)

-- Where the bytes of the address start and where they end, which is where the port starts.
unfoldable pub addr_range : List ℕ → Result HeaderError (ℕ × ℕ)
addr_range (cmd ∷ atyp ∷ rest) =
    if atyp == 0x01
    then ok (2, 6)
    else if atyp == 0x04
    then ok (2, 18)
    else if atyp == 0x03
    then domain_range rest
    else err (unsupported_atyp atyp)
addr_range _ = err out_of_range

unfoldable pub request_at : List ℕ → ℕ × ℕ → Result HeaderError Frame
request_at outbuf (addr_start, addr_end) =
    let port = u16_from_be (get_or outbuf addr_end 0) (get_or outbuf (addr_end + 1) 0) in
    if leb (addr_end + 2) (length outbuf)
    then ok (
        open_request (get_or outbuf 0 0) (get_or outbuf 1 0)
          (take (addr_end - addr_start) (drop addr_start outbuf)) port)
    else err truncated_header

unfoldable pub open_request_from_trojan_header : Option (List ℕ) → Result HeaderError Frame
open_request_from_trojan_header none = err no_request
open_request_from_trojan_header (some outbuf) = addr_range outbuf >>= request_at outbuf

unfoldable pub addr_len : List ℕ → Result HeaderError ℕ
addr_len outbuf =
    let atyp = get_or outbuf 1 0 in
    if atyp == 0x01
    then ok 4
    else if atyp == 0x04
    then ok 16
    else if atyp == 0x03
    then ok (get_or outbuf 2 0 + 1)
    else err (unsupported_atyp atyp)

-- The length is 1 + 1 + addr_len + 2 + 2.
unfoldable pub check_header_len : List ℕ → ℕ → Result HeaderError ℕ
check_header_len outbuf n =
    let len = 1 + 1 + n + 2 + 2 in if leb len (length outbuf) then ok len else err truncated_header

unfoldable pub trojan_header_len : List ℕ → Result HeaderError ℕ
trojan_header_len outbuf =
    let checked = addr_len outbuf >>= check_header_len outbuf in
    if leb 4 (length outbuf) then checked else err truncated_header
