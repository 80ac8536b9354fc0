-- ===== src/Tunnel/Connect/Whole.antt =====
-- tunnel/src/client.rs: the records that `tls12_handshake` reads, and one that does not fit its
-- buffer.
use mathlib.Core.List.{append_assoc, append-nil}
use noisy_shuttle.Base.{ℕ, ◌<◌, ◌≡◌, sym, ap, ◌∙◌, List, [], ◌++◌, length, subst}
use noisy_shuttle.Tunnel.Snowy.{maximum_ciphertext_length}
use noisy_shuttle.Tunnel.Handshake.{payload_len}

-- Whole records.
pub data Records : List ℕ → Type 0 where
  no_more : Records []
  one_more :
      {rest : List ℕ} (header body : List ℕ)
      → length header ≡ 5
      → length body ≡ payload_len header
      → Records rest
      → Records (header ++ (body ++ rest))

pub Records-append :
    {before behind : List ℕ} → Records before → Records behind → Records (before ++ behind)
Records-append no_more r = r
Records-append {behind} (one_more {rest} header body l l' before) r =
    subst Records
      (ap (λ x. header ++ x) (sym (append_assoc body rest behind))
        ∙ sym (append_assoc header (body ++ rest) behind))
      (one_more header body l l' (Records-append before r))

pub one_record :
    (header body : List ℕ)
    → length header ≡ 5
    → length body ≡ payload_len header
    → Records (header ++ body)
one_record header body l l' =
    subst Records (ap (λ x. header ++ x) (append-nil body)) (one_more header body l l' no_more)

-- Behind whole records, a header that announces more than fits a record.
abbrev pub TooLong : List ℕ → Type 0
TooLong bytes =
    (before : List ℕ) × (header : List ℕ) × (behind : List ℕ) × Records before
    × (bytes ≡ before ++ (header ++ behind))
    × (length header ≡ 5)
    × (maximum_ciphertext_length < payload_len header)

pub TooLong-behind :
    (first bytes : List ℕ) → Records first → TooLong bytes → TooLong (first ++ bytes)
TooLong-behind first bytes whole (before, header, behind, records, same, len, long) = (
  first ++ before,
  header,
  behind,
  Records-append whole records,
  ap (λ l. first ++ l) same ∙ sym (append_assoc first before (header ++ behind)),
  len,
  long,
)
