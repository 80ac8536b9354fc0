-- ===== src/Client/Plain/Header.antt =====
-- shuttle/src/client/plain.rs: the open request that the client makes of a header, and the address
-- that the server makes of that open request.
use mathlib.Core.List.{append_assoc}
use noisy_shuttle.Base.{
  ℕ, ◌+◌, ◌/◌, ◌%◌, ◌-◌, ◌≤◌, ◌<◌, ◌≡◌, refl, sym, ap, ◌∙◌, true, List, [], ◌∷◌, ◌++◌, some, arith,
  length, take, drop, get_or, get_or-append, u16_to_be, leb, IsU16, take-append, drop-append,
  length-append, u16_from_be-to_be,
}
use noisy_shuttle.Results.{ok}
use noisy_shuttle.Session.Frame.{open_request}
use noisy_shuttle.Server.Address.{Addr, ipv4, ipv6, domain, frame_addr_to_trojan_addr, is_utf8}
use noisy_shuttle.Trojan.{cr, lf}
use noisy_shuttle.Client.Plain.{
  addr_range, request_at, open_request_from_trojan_header, addr_len, check_header_len,
  trojan_header_len,
}

-- An address on the wire, as SOCKS5 has it (RFC 1928, section 5): its type, its bytes with the
-- length in front of a domain, and its port.
abbrev pub socks5_bytes : Addr → List ℕ
socks5_bytes (ipv4 bytes port) = 0x01 ∷ (bytes ++ u16_to_be port)
socks5_bytes (ipv6 bytes port) = 0x04 ∷ (bytes ++ u16_to_be port)
socks5_bytes (domain bytes port) = 0x03 ∷ length bytes ∷ (bytes ++ u16_to_be port)

abbrev pub IsAddr : Addr → Type 0
IsAddr (ipv4 bytes port) = (length bytes ≡ 4) × IsU16 port
IsAddr (ipv6 bytes port) = (length bytes ≡ 16) × IsU16 port
IsAddr (domain bytes port) = (is_utf8 bytes ≡ true) × (length bytes < 256) × IsU16 port

-- The type byte, the bytes and the port that an open request has for an address.
abbrev pub atyp_of : Addr → ℕ
atyp_of (ipv4 bytes port) = 0x01
atyp_of (ipv6 bytes port) = 0x04
atyp_of (domain bytes port) = 0x03

abbrev pub bytes_of : Addr → List ℕ
bytes_of (ipv4 bytes port) = bytes
bytes_of (ipv6 bytes port) = bytes
bytes_of (domain bytes port) = bytes

abbrev pub port_of : Addr → ℕ
port_of (ipv4 bytes port) = port
port_of (ipv6 bytes port) = port
port_of (domain bytes port) = port

-- A header as TrojanLikeRequest::encode writes it, and what follows it.
abbrev pub header : ℕ → Addr → List ℕ → List ℕ
header cmd a rest = cmd ∷ (socks5_bytes a ++ (cr ∷ lf ∷ rest))

-- The parts of a request that stand where they should.
request_at-parts :
    (front bytes rest : List ℕ) (cmd atyp port n m : ℕ)
    → IsU16 port
    → n ≡ length front + 2
    → m ≡ n + length bytes
    → request_at (cmd ∷ atyp ∷ (front ++ (bytes ++ (u16_to_be port ++ rest)))) (n, m)
      ≡ ok (open_request cmd atyp bytes port)
unfolding request_at
request_at-parts front bytes rest cmd atyp port n m p e f =
    let ports = u16_to_be port ++ rest in
    let before = cmd ∷ atyp ∷ front in
    let upto = cmd ∷ atyp ∷ (front ++ bytes) in
    let whole = cmd ∷ atyp ∷ (front ++ (bytes ++ ports)) in
    let cut : whole ≡ upto ++ ports =
      ap (λ l. cmd ∷ atyp ∷ l) (sym (append_assoc front bytes ports)) in
    let here : length upto ≡ m = omega (arith, length-append front bytes, e, f) in
    let enough : leb (m + 2) (length whole) ≡ true =
      ground (arith, ap length cut, length-append upto ports, here) in
    let addr : take (m - n) (drop n whole) ≡ bytes =
      ap (λ k. take k (drop n whole)) {x = m - n} {y = length bytes} (omega (arith, f))
      ∙ ap (λ k. take (length bytes) (drop k whole)) {x = n} {y = length before} (omega (arith, e))
      ∙ ap (take (length bytes)) (drop-append before (bytes ++ ports))
      ∙ take-append bytes ports in
    let high : get_or whole m 0 ≡ port / 256 % 256 =
      ap (λ l. get_or l m 0) cut
      ∙ ap (λ k. get_or (upto ++ ports) k 0) {x = m} {y = length upto + 0} (omega (arith, here))
      ∙ get_or-append upto ports 0 0 in
    let low : get_or whole (m + 1) 0 ≡ port % 256 =
      ap (λ l. get_or l (m + 1) 0) cut
      ∙ ap (λ k. get_or (upto ++ ports) k 0) {x = m + 1} {y = length upto + 1} (omega (arith, here))
      ∙ get_or-append upto ports 1 0 in
    rw (enough, addr, high, low, u16_from_be-to_be port p) refl

-- The header of a request for an address, and what the server makes of the open request for it: the
-- same address.
header-open_request :
    (cmd : ℕ) (a : Addr) (rest : List ℕ)
    → IsAddr a
    → (open_request_from_trojan_header (some (header cmd a rest))
        ≡ ok (open_request cmd (atyp_of a) (bytes_of a) (port_of a)))
      × (frame_addr_to_trojan_addr (atyp_of a) (bytes_of a) (port_of a) ≡ ok a)
unfolding open_request_from_trojan_header addr_range frame_addr_to_trojan_addr
header-open_request cmd (ipv4 bytes port) rest (size, p) = (
  ap (λ l. open_request_from_trojan_header (some (cmd ∷ 1 ∷ l)))
        (append_assoc bytes (u16_to_be port) (cr ∷ lf ∷ rest))
      ∙ request_at-parts [] bytes (cr ∷ lf ∷ rest) cmd 1 port 2 6 p refl (omega (arith, size)),
  rw (size) refl,
)
header-open_request cmd (ipv6 bytes port) rest (size, p) = (
  ap (λ l. open_request_from_trojan_header (some (cmd ∷ 4 ∷ l)))
        (append_assoc bytes (u16_to_be port) (cr ∷ lf ∷ rest))
      ∙ request_at-parts [] bytes (cr ∷ lf ∷ rest) cmd 4 port 2 18 p refl (omega (arith, size)),
  rw (size) refl,
)
header-open_request cmd (domain bytes port) rest (utf8, size, p) = (
  ap (λ l. open_request_from_trojan_header (some (cmd ∷ 3 ∷ length bytes ∷ l)))
        (append_assoc bytes (u16_to_be port) (cr ∷ lf ∷ rest))
      ∙ request_at-parts (length bytes ∷ []) bytes (cr ∷ lf ∷ rest) cmd 3 port 3 (3 + length bytes)
          p refl refl,
  rw (utf8) refl,
)

checked-header_len :
    (outbuf : List ℕ) (k n : ℕ)
    → addr_len outbuf ≡ ok k
    → 6 + k ≡ n
    → n ≤ length outbuf
    → trojan_header_len outbuf ≡ ok n
unfolding trojan_header_len check_header_len
checked-header_len outbuf k n e size fits =
    let some_bytes : leb 4 (length outbuf) ≡ true = ground (arith, size) in
    let whole : leb (1 + 1 + k + 2 + 2) (length outbuf) ≡ true = ground (arith, size) in
    let sum : 1 + 1 + k + 2 + 2 ≡ n = omega (arith, size) in rw (some_bytes, e, whole) (ap ok sum)

header-addr_len :
    (cmd : ℕ) (a : Addr) (rest : List ℕ)
    → IsAddr a
    → (k : ℕ) × (addr_len (header cmd a rest) ≡ ok k) × (6 + k ≡ length (header cmd a []))
unfolding addr_len
header-addr_len cmd (ipv4 bytes port) rest (size, p) = (
  4,
  refl,
  omega (
    arith,
    size,
    length-append (bytes ++ u16_to_be port) (cr ∷ lf ∷ []),
    length-append bytes (u16_to_be port),
  ),
)
header-addr_len cmd (ipv6 bytes port) rest (size, p) = (
  16,
  refl,
  omega (
    arith,
    size,
    length-append (bytes ++ u16_to_be port) (cr ∷ lf ∷ []),
    length-append bytes (u16_to_be port),
  ),
)
header-addr_len cmd (domain bytes port) rest (utf8, size, p) = (
  length bytes + 1,
  refl,
  omega (
    arith,
    length-append (bytes ++ u16_to_be port) (cr ∷ lf ∷ []),
    length-append bytes (u16_to_be port),
  ),
)

header-append : (cmd : ℕ) (a : Addr) (rest : List ℕ) → header cmd a [] ++ rest ≡ header cmd a rest
header-append cmd a rest = ap (◌∷◌ cmd) (append_assoc (socks5_bytes a) (cr ∷ lf ∷ []) rest)

-- The first data is what follows the header.
header-trojan_header_len :
    (cmd : ℕ) (a : Addr) (rest : List ℕ)
    → IsAddr a
    → (trojan_header_len (header cmd a rest) ≡ ok (length (header cmd a [])))
      × (drop (length (header cmd a [])) (header cmd a rest) ≡ rest)
header-trojan_header_len cmd a rest h =
    let (k, e, size) = header-addr_len cmd a rest h in
    let parts = header-append cmd a rest in
    (
      checked-header_len (header cmd a rest) k (length (header cmd a [])) e size
          (omega (arith, ap length parts, length-append (header cmd a []) rest)),
      ap (drop (length (header cmd a []))) (sym parts) ∙ drop-append (header cmd a []) rest,
    )

-- For the header of a request for an IPv4, IPv6 or domain address, with whatever data follows it: the
-- client asks for exactly that address, the server takes the open request for the same address, and
-- the header that the client cuts off before it sends the data is the whole header and no more.
pub open_request_same_address :
    (cmd : ℕ) (a : Addr) (rest : List ℕ)
    → IsAddr a
    → (open_request_from_trojan_header (some (header cmd a rest))
        ≡ ok (open_request cmd (atyp_of a) (bytes_of a) (port_of a)))
      × (frame_addr_to_trojan_addr (atyp_of a) (bytes_of a) (port_of a) ≡ ok a)
      × (trojan_header_len (header cmd a rest) ≡ ok (length (header cmd a [])))
      × (drop (length (header cmd a [])) (header cmd a rest) ≡ rest)
open_request_same_address cmd a rest h =
    let (asked, taken) = header-open_request cmd a rest h in
    let (cut, left) = header-trojan_header_len cmd a rest h in (asked, taken, cut, left)
