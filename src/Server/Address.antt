-- ===== src/Server/Address.antt =====
-- shuttle/src/server/session_loop.rs: the address of an open request. A domain keeps its bytes.
use noisy_shuttle.Base.{
  ℕ, ◌==◌, ltb, leb, ◌&&◌, if◌then◌else◌, Bool, true, false, List, [], ◌∷◌, Option, none, some,
  length,
}
use noisy_shuttle.Results.{Result, ok, err}

pub data Addr : Type 0 where
  ipv4 : List ℕ → ℕ → Addr
  ipv6 : List ℕ → ℕ → Addr
  domain : List ℕ → ℕ → Addr

pub data AddressError : Type 0 where
  invalid_ipv4_length invalid_ipv6_length invalid_domain_encoding : AddressError
  unsupported_address_type : ℕ → AddressError

abbrev continuation : ℕ × ℕ
continuation = (0x80, 0xbf)

-- The ranges of the bytes that follow the first byte of a character; `none` is no first byte.
lead : ℕ → Option (List (ℕ × ℕ))
lead b =
    if ltb b 0x80
    then some []
    else if ltb b 0xc2
    then none
    else if ltb b 0xe0
    then some (continuation ∷ [])
    else if b == 0xe0
    then some ((0xa0, 0xbf) ∷ continuation ∷ [])
    else if b == 0xed
    then some ((0x80, 0x9f) ∷ continuation ∷ [])
    else if ltb b 0xf0
    then some (continuation ∷ continuation ∷ [])
    else if b == 0xf0
    then some ((0x90, 0xbf) ∷ continuation ∷ continuation ∷ [])
    else if ltb b 0xf4
    then some (continuation ∷ continuation ∷ continuation ∷ [])
    else if b == 0xf4
    then some ((0x80, 0x8f) ∷ continuation ∷ continuation ∷ [])
    else none

utf8_from : List (ℕ × ℕ) → List ℕ → Bool
unfolding lead
utf8_from [] [] = true
utf8_from (r ∷ rs) [] = false
utf8_from ((lo, hi) ∷ rs) (b ∷ bs) = leb lo b && leb b hi && utf8_from rs bs
utf8_from [] (b ∷ bs) = elim (lead b) [ none ↦ false | some rs ↦ utf8_from rs bs ]

-- Whether String::from_utf8 accepts the bytes.
unfoldable pub is_utf8 : List ℕ → Bool
unfolding utf8_from
is_utf8 bytes = utf8_from [] bytes

unfoldable pub frame_addr_to_trojan_addr : ℕ → List ℕ → ℕ → Result AddressError Addr
frame_addr_to_trojan_addr atyp addr port =
    if atyp == 0x01
    then (if length addr == 4 then ok (ipv4 addr port) else err invalid_ipv4_length)
    else if atyp == 0x04
    then (if length addr == 16 then ok (ipv6 addr port) else err invalid_ipv6_length)
    else if atyp == 0x03
    then (if is_utf8 addr then ok (domain addr port) else err invalid_domain_encoding)
    else err (unsupported_address_type atyp)
