-- ===== src/Utils.antt =====
-- shuttle/src/utils.rs: the functions on URLs. A string is the list of its bytes; `find` and `split` on
-- ASCII patterns are searches in them, and `u16::from_str` is `parse_u16`.
pub mod Url
mod Tests
use noisy_shuttle.Base.{
  ℕ, ◌+◌, ◌-◌, ◌*◌, ◌==◌, ltb, leb, if◌then◌else◌, Bool, true, false, ◌&&◌, List, [], ◌∷◌, Option,
  none, some,
}

abbrev pub slash : ℕ
slash = 47

abbrev pub colon : ℕ
colon = 58

abbrev pub plus : ℕ
plus = 43

-- What stands before the first such byte, and the rest from it on.
unfoldable pub find : ℕ → List ℕ → Option (List ℕ × List ℕ)
find b [] = none
find b (x ∷ xs) =
    let rest = find b xs in
    if x == b then some ([], x ∷ xs) else elim rest [ none ↦ none | some (h, t) ↦ some (x ∷ h, t) ]

-- What stands before the first "//", and what stands behind it.
unfoldable pub split_slashes : List ℕ → Option (List ℕ × List ℕ)
split_slashes [] = none
split_slashes (x ∷ []) = none
split_slashes (x ∷ y ∷ ys) =
    let rest = split_slashes (y ∷ ys) in
    if x == slash && y == slash
    then some ([], ys)
    else elim rest [ none ↦ none | some (h, t) ↦ some (x ∷ h, t) ]

-- The first component of a split.
abbrev pub first : List ℕ → Option (List ℕ × List ℕ) → List ℕ
first s none = s
first s (some (h, t)) = h

-- The digits of a number below 2^16.
unfoldable pub parse_digits : ℕ → List ℕ → Option ℕ
parse_digits n [] = some n
parse_digits n (d ∷ ds) =
    let n' = n * 10 + (d - 48) in
    let rest = parse_digits n' ds in if leb 48 d && (leb d 57 && ltb n' 65536) then rest else none

unfoldable pub parse_u16 : List ℕ → Option ℕ
parse_u16 [] = none
parse_u16 (c ∷ []) = parse_digits 0 (c ∷ [])
parse_u16 (c ∷ d ∷ ds) = if c == plus then parse_digits 0 (d ∷ ds) else parse_digits 0 (c ∷ d ∷ ds)

-- `&scheme[..scheme.len() - 1]`, which panics on an empty string and inside a character.
unfoldable pub without_last : List ℕ → Option (List ℕ)
without_last [] = none
without_last (x ∷ []) = if ltb x 128 then some [] else none
without_last (x ∷ y ∷ ys) =
    let rest = without_last (y ∷ ys) in elim rest [ none ↦ none | some s ↦ some (x ∷ s) ]

abbrev pub ftp : List ℕ
ftp = 102 ∷ 116 ∷ 112 ∷ []

abbrev pub http : List ℕ
http = 104 ∷ 116 ∷ 116 ∷ 112 ∷ []

abbrev pub https : List ℕ
https = 104 ∷ 116 ∷ 116 ∷ 112 ∷ 115 ∷ []

unfoldable pub same_str : List ℕ → List ℕ → Bool
same_str [] [] = true
same_str [] (y ∷ ys) = false
same_str (x ∷ xs) [] = false
same_str (x ∷ xs) (y ∷ ys) = x == y && same_str xs ys

unfoldable pub scheme_port : List ℕ → Option ℕ
scheme_port s =
    if same_str s ftp
    then some 21
    else if same_str s https
    then some 443
    else if same_str s http
    then some 80
    else if same_str s []
    then some 80
    else none

-- A call that panics, or what it returns.
pub data Extracted : Type 0 where
  panicked : Extracted
  returned : Option (List ℕ × ℕ) → Extracted

unfoldable pub with_port : List ℕ → Option ℕ → Option (List ℕ × ℕ)
with_port h none = none
with_port h (some p) = some (h, p)

-- The last `match`: `split_at` leaves the colon in front of the port.
unfoldable pub host_and_port : List ℕ → ℕ → Option (List ℕ × List ℕ) → Option (List ℕ × ℕ)
host_and_port host port none = some (host, port)
host_and_port host port (some (h, p)) = with_port h (parse_u16 p)

unfoldable pub extract_host : List ℕ → Option ℕ → Option (List ℕ × ℕ)
extract_host host none = none
extract_host host (some port) = host_and_port host port (find colon host)

unfoldable pub extract_from : List ℕ → Option (List ℕ) → Extracted
extract_from host none = panicked
extract_from host (some scheme) = returned (extract_host host (scheme_port scheme))

unfoldable pub extract_split : Option (List ℕ × List ℕ) → Extracted
extract_split none = returned none
extract_split (some (scheme, rest)) =
    let component = first rest (split_slashes rest) in
    extract_from (first component (find slash component)) (without_last scheme)

unfoldable pub extract_host_addr_from_url : List ℕ → Extracted
extract_host_addr_from_url url = extract_split (split_slashes url)

abbrev pub strip_scheme : List ℕ → Option (List ℕ × List ℕ) → List ℕ
strip_scheme url none = url
strip_scheme url (some (h, t)) = t

unfoldable pub from_slash : Option (List ℕ × List ℕ) → Option (List ℕ)
from_slash none = none
from_slash (some (h, t)) = some t

unfoldable pub url_to_relative : List ℕ → Option (List ℕ)
url_to_relative url = from_slash (find slash (strip_scheme url (split_slashes url)))
