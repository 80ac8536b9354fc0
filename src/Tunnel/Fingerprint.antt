-- ===== src/Tunnel/Fingerprint.antt =====
-- tunnel/src/fp.rs: how a ClientHello of the crate rustls is made to look like one of a given
-- fingerprint. Types of rustls that stand for a code are the code. The random GREASE values of the
-- crate ja3_rustls come from a source that is passed on; what rustls says of its extensions and
-- messages, and the order in which a HashMap gives its values, are parameters.
pub mod Values
pub mod Overwrite
pub mod Filed
pub mod Order
pub mod Alpn
pub mod Flag
pub mod Groups
pub mod Shares
pub mod Offers
mod Tests
pub mod Blank
pub mod Padding
pub mod Identity
use noisy_shuttle.Base.{
  ℕ, zero, suc, ◌-◌, ◌==◌, if◌then◌else◌, Bool, true, false, ◌&&◌, ◌||◌, List, [], ◌∷◌, ◌++◌,
  Option, none, some, take, length,
}

-- ja3_rustls: Ja3.
pub record Ja3 : Type 0 where
  pub version : ℕ
  pub ciphers : List ℕ
  pub extensions : List ℕ
  pub curves : List ℕ
  pub point_formats : List ℕ

pub record FingerprintSpec : Type 0 where
  pub ja3 : Option Ja3
  pub alpn : Option (List (List ℕ))
  pub signature_algos : Option (List ℕ)
  pub supported_versions : Option (List ℕ)
  pub keyshare_curves : Option (List ℕ)

abbrev pub is_none {ℓ} : {A : Type ℓ} → Option A → Bool
is_none none = true
is_none (some a) = false

unfoldable pub is_empty : FingerprintSpec → Bool
is_empty fp =
    is_none fp.ja3
    && (is_none fp.alpn
        && (is_none fp.signature_algos
            && (is_none fp.supported_versions && is_none fp.keyshare_curves)))

-- rustls: KeyShareEntry.
pub record KeyShareEntry : Type 0 where
  pub group : ℕ
  pub payload : List ℕ

-- rustls: ClientExtension; `other` is the variants that the code does not name.
pub data ClientExtension : Type 0 where
  named_groups : List ℕ → ClientExtension
  ec_point_formats : List ℕ → ClientExtension
  protocols : List (List ℕ) → ClientExtension
  supported_versions : List ℕ → ClientExtension
  signature_algorithms : List ℕ → ClientExtension
  key_share : List KeyShareEntry → ClientExtension
  unknown : (typ : ℕ) → (payload : List ℕ) → ClientExtension
  other : (typ : ℕ) → (content : List ℕ) → ClientExtension

-- rustls: ClientHelloPayload.
pub record ClientHello : Type 0 where
  pub random : List ℕ
  pub session_id : List ℕ
  pub cipher_suites : List ℕ
  pub compression_methods : List ℕ
  pub extensions : List ClientExtension

-- rustls: HandshakeMessagePayload, MessagePayload and Message.
pub data Handshake : Type 0 where
  client_hello : ClientHello → Handshake
  other_handshake : List ℕ → Handshake

pub data Payload : Type 0 where
  handshake : (parsed : Handshake) → (encoded : List ℕ) → Payload
  other_payload : List ℕ → Payload

pub record Message : Type 0 where
  pub version : ℕ
  pub payload : Payload

-- ja3_rustls: random GREASE values, from a source that each draw changes.
pub record Grease : Type 1 where
  pub Source : Type 0
  pub is_grease_u16_be : ℕ → Bool
  pub grease_u16_be : Source → ℕ × Source
  pub try_regrease_u16_be : ℕ → Source → ℕ × Source
  pub extensions_regreasing : List ℕ → Source → List ℕ × Source

-- rustls: the type of an extension and the bytes of a handshake message; and std: the values of a
-- HashMap, in its order.
pub record Rustls : Type 0 where
  pub get_type : ClientExtension → ℕ
  pub get_encoding : Handshake → List ℕ
  pub into_values : List (ℕ × ClientExtension) → List ClientExtension

-- rustls: ExtensionType.
abbrev pub padding : ℕ
padding = 0x0015

abbrev pub al_protocol_negotiation : ℕ
al_protocol_negotiation = 0x0010

abbrev pub renegotiation_info : ℕ
renegotiation_info = 0xff01

abbrev pub rfc7685_padding_target : ℕ
rfc7685_padding_target = 512

-- A HashMap with numbers for keys.
module _ {ℓ} {V : Type ℓ} where
  unfoldable pub insert : ℕ → V → List (ℕ × V) → List (ℕ × V)
  insert k v [] = (k, v) ∷ []
  insert k v ((j, w) ∷ m) = if j == k then (k, v) ∷ m else (j, w) ∷ insert k v m

  unfoldable pub collect_into : (V → ℕ) → List V → List (ℕ × V) → List (ℕ × V)
  collect_into key [] m = m
  collect_into key (v ∷ vs) m = collect_into key vs (insert (key v) v m)

  unfoldable pub keep_entry : ℕ × V → Option V × List (ℕ × V) → Option V × List (ℕ × V)
  keep_entry entry (found, m) = (found, entry ∷ m)

  unfoldable pub remove : ℕ → List (ℕ × V) → Option V × List (ℕ × V)
  remove k [] = (none, [])
  remove k ((j, w) ∷ m) =
      let rest = keep_entry (j, w) (remove k m) in if j == k then (some w, m) else rest

-- try_assign!
abbrev pub assigned {ℓ} : {A : Type ℓ} → A → Option A → A
assigned old none = old
assigned old (some v) = v

-- Vec::resize with zeros.
abbrev pub zeros : ℕ → List ℕ
zeros zero = []
zeros (suc n) = 0 ∷ zeros n

unfoldable pub resize : ℕ → List ℕ → List ℕ
resize n v = take n v ++ zeros (n - length v)

-- The payload of an extension that the message lacks; `none` is the panic.
unfoldable pub dummy_payload : ℕ → Option (List ℕ)
dummy_payload typ =
    if typ == al_protocol_negotiation
    then none
    else if typ == renegotiation_info
    then some (0x00 ∷ [])
    else if typ == 0x4469
    then some (0x00 ∷ 0x03 ∷ 0x02 ∷ 0x68 ∷ 0x32 ∷ [])
    else if typ == 0x001b
    then some (0x02 ∷ 0x00 ∷ 0x02 ∷ [])
    else some []

unfoldable pub dummy_extension : ℕ → Option (List ℕ) → Option (List ClientExtension)
dummy_extension typ none = none
dummy_extension typ (some payload) = some (unknown typ payload ∷ [])

-- What one type of the JA3 gives: the extension of the message, a dummy one, or nothing.
unfoldable pub extension_for :
    (add : Bool) → ℕ → Option ClientExtension → Option (List ClientExtension)
extension_for add typ (some extension) = some (extension ∷ [])
extension_for add typ none = if add then dummy_extension typ (dummy_payload typ) else some []

unfoldable pub join_extensions :
    Option (List ClientExtension)
    → Option (List ClientExtension × List (ℕ × ClientExtension) × Bool)
    → Option (List ClientExtension × List (ℕ × ClientExtension) × Bool)
join_extensions none rest = none
join_extensions (some here) none = none
join_extensions (some here) (some (later, left, pad)) = some (here ++ later, left, pad)

-- The loop over the types of the JA3: the extensions, what is left of the old ones, and whether a
-- padding was added.
unfoldable pub match_order :
    (add : Bool)
    → List ℕ
    → List (ℕ × ClientExtension)
    → (pad : Bool) → Option (List ClientExtension × List (ℕ × ClientExtension) × Bool)
match_order add [] old pad = some ([], old, pad)
match_order add (typ ∷ types) old pad =
    let (found, left) = remove typ old in
    join_extensions (extension_for add typ found)
      (match_order add types left (pad || (is_none found && (add && typ == padding))))

-- The first padding is resized.
unfoldable pub resize_padding : ℕ → List ClientExtension → List ClientExtension
resize_padding n [] = []
resize_padding n (unknown typ payload ∷ extensions) =
    if typ == padding
    then unknown typ (resize n payload) ∷ extensions
    else unknown typ payload ∷ resize_padding n extensions
resize_padding n (extension ∷ extensions) = extension ∷ resize_padding n extensions
