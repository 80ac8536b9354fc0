-- ===== src/Utils/Url.antt =====
-- shuttle/src/utils.rs: what is extracted from a URL.
use mathlib.Core.List.{append_assoc}
use noisy_shuttle.Base.{
  ℕ, ◌==◌, ◌≡◌, refl, sym, ap, ◌∙◌, if◌then◌else◌, Bool, true, false, List, [], ◌∷◌, ◌++◌, Option,
  none, some, All, arith, Bool-cases, inl, inr, ◌⊎◌,
}
use noisy_shuttle.Utils.{
  slash, colon, first, find, split_slashes, parse_digits, parse_u16, without_last, scheme_port,
  same_str, ftp, http, https, Extracted, panicked, returned, with_port, host_and_port, extract_host,
  extract_from, extract_split, extract_host_addr_from_url, from_slash, url_to_relative,
}

-- What `find` finds starts with the byte.
StartsWith : ℕ → Option (List ℕ × List ℕ) → Type 0
StartsWith b none = Unit {0}
StartsWith b (some (h, [])) = ⊥
StartsWith b (some (h, x ∷ t)) = x ≡ b

cons-StartsWith :
    (b x : ℕ) (r : Option (List ℕ × List ℕ))
    → StartsWith b r
    → StartsWith b (elim r [ none ↦ none | some (h, t) ↦ some (x ∷ h, t) ])
unfolding StartsWith
cons-StartsWith b x none s = tt
cons-StartsWith b x (some (h, [])) s = s
cons-StartsWith b x (some (h, y ∷ t)) s = s

find-StartsWith : (b : ℕ) (xs : List ℕ) → StartsWith b (find b xs)
unfolding find StartsWith
find-StartsWith b [] = tt
find-StartsWith b (x ∷ xs) = elim (Bool-cases (x == b)) [
  | inl h ↦ rw (h) (ground (arith, h))
  | inr h ↦ rw (h) (cons-StartsWith b x (find b xs) (find-StartsWith b xs))
]

-- A string with a colon in front is no number.
parse_u16-colon : (x : ℕ) (ds : List ℕ) → x ≡ colon → parse_u16 (x ∷ ds) ≡ none
unfolding parse_u16 parse_digits
parse_u16-colon x [] e = rw (e) refl
parse_u16-colon x (d ∷ ds) e = rw (e) refl

abbrev pub IsDefaultPort : ℕ → Type 0
IsDefaultPort port = (port ≡ 21) ⊎ ((port ≡ 443) ⊎ (port ≡ 80))

abbrev pub HasDefaultPort : Option (List ℕ × ℕ) → Type 0
HasDefaultPort none = Unit {0}
HasDefaultPort (some (host, port)) = (find colon host ≡ none) × IsDefaultPort port

abbrev pub ExtractsDefault : Extracted → Type 0
ExtractsDefault panicked = Unit {0}
ExtractsDefault (returned r) = HasDefaultPort r

abbrev AllDefault : Option ℕ → Type 0
AllDefault none = Unit {0}
AllDefault (some port) = IsDefaultPort port

if-AllDefault :
    (c : Bool) (port : ℕ) (r : Option ℕ)
    → IsDefaultPort port
    → AllDefault r
    → AllDefault (if c then some port else r)
if-AllDefault true port r d a = d
if-AllDefault false port r d a = a

scheme_port-AllDefault : (s : List ℕ) → AllDefault (scheme_port s)
unfolding scheme_port
scheme_port-AllDefault s = if-AllDefault (same_str s ftp) 21 _ (inl refl) (
    if-AllDefault (same_str s https) 443 _ (inr (inl refl)) (
      if-AllDefault (same_str s http) 80 _ (inr (inr refl))
        (if-AllDefault (same_str s []) 80 none (inr (inr refl)) tt)))

host_and_port-HasDefaultPort :
    (host : List ℕ) (port : ℕ) (r : Option (List ℕ × List ℕ))
    → IsDefaultPort port
    → StartsWith colon r
    → find colon host ≡ r
    → HasDefaultPort (host_and_port host port r)
unfolding host_and_port StartsWith with_port
host_and_port-HasDefaultPort host port none d s e = (e, d)
host_and_port-HasDefaultPort host port (some (h, [])) d s e = absurd s
host_and_port-HasDefaultPort host port (some (h, x ∷ t)) d s e = rw (parse_u16-colon x t s) tt

extract_host-HasDefaultPort :
    (host : List ℕ) (p : Option ℕ) → AllDefault p → HasDefaultPort (extract_host host p)
unfolding extract_host
extract_host-HasDefaultPort host none a = tt
extract_host-HasDefaultPort host (some port) a =
    host_and_port-HasDefaultPort host port (find colon host) a (find-StartsWith colon host) refl

extract_from-ExtractsDefault :
    (host : List ℕ) (s : Option (List ℕ)) → ExtractsDefault (extract_from host s)
unfolding extract_from
extract_from-ExtractsDefault host none = tt
extract_from-ExtractsDefault host (some scheme) =
    extract_host-HasDefaultPort host (scheme_port scheme) (scheme_port-AllDefault scheme)

extract_split-ExtractsDefault : (r : Option (List ℕ × List ℕ)) → ExtractsDefault (extract_split r)
unfolding extract_split
extract_split-ExtractsDefault none = tt
extract_split-ExtractsDefault (some (scheme, rest)) =
    extract_from-ExtractsDefault _ (without_last scheme)

find_lem :
    (b : ℕ) (h t : List ℕ) → All (λ x. (x == b) ≡ false) h → find b (h ++ b ∷ t) ≡ some (h, b ∷ t)
unfolding find
find_lem b [] t a = let same : (b == b) ≡ true = ground arith in rw (same) refl
find_lem b (x ∷ xs) t a = rw (a.0, find_lem b xs t a.1) refl

split_slashes_lem :
    (s t : List ℕ)
    → All (λ x. (x == slash) ≡ false) s
    → split_slashes (s ++ slash ∷ slash ∷ t) ≡ some (s, t)
unfolding split_slashes
split_slashes_lem [] t a = refl
split_slashes_lem (x ∷ []) t a = rw (a.0) refl
split_slashes_lem (x ∷ y ∷ ys) t a = rw (a.0, split_slashes_lem (y ∷ ys) t a.1) refl

-- Where the byte stands behind `h`, it is found, there or before.
find-some :
    (b : ℕ) (h t : List ℕ) → (x : List ℕ) × (y : List ℕ) × (find b (h ++ b ∷ t) ≡ some (x, b ∷ y))
unfolding find
find-some b [] t = let same : (b == b) ≡ true = ground arith in ([], t, rw (same) refl)
find-some b (a ∷ h) t = elim (Bool-cases (a == b)) [
  | inl is ↦ ([], h ++ b ∷ t, rw (is) (let same : a ≡ b = ground (arith, is) in rw (same) refl))
  | inr other ↦ let (x, y, e) = find-some b h t in (a ∷ x, y, rw (other, e) refl)
]

-- What stands before the first slash stays in the first component.
cons-first :
    (x : ℕ) (xs : List ℕ) (r : Option (List ℕ × List ℕ))
    → first (x ∷ xs) (elim r [ none ↦ none | some (h, t) ↦ some (x ∷ h, t) ]) ≡ x ∷ first xs r
cons-first x xs none = refl
cons-first x xs (some (h, t)) = refl

find-first :
    (a t : List ℕ)
    → All (λ x. (x == slash) ≡ false) a
    → (u : List ℕ) × (first (a ++ t) (find slash (a ++ t)) ≡ a ++ u)
unfolding find
find-first [] t free = (first t (find slash t), refl)
find-first (x ∷ a) t free =
    let (u, e) = find-first a t free.1 in
    (u, rw (free.0) (cons-first x (a ++ t) (find slash (a ++ t)) ∙ ap (◌∷◌ x) e))

split_slashes-cons :
    (x : ℕ) (xs : List ℕ)
    → (x == slash) ≡ false
    → first (x ∷ xs) (split_slashes (x ∷ xs)) ≡ x ∷ first xs (split_slashes xs)
unfolding split_slashes
split_slashes-cons x [] free = refl
split_slashes-cons x (y ∷ ys) free = rw (free) (cons-first x (y ∷ ys) (split_slashes (y ∷ ys)))

split_slashes-first :
    (a t : List ℕ)
    → All (λ x. (x == slash) ≡ false) a
    → (u : List ℕ) × (first (a ++ t) (split_slashes (a ++ t)) ≡ a ++ u)
split_slashes-first [] t free = (first t (split_slashes t), refl)
split_slashes-first (x ∷ a) t free =
    let (u, e) = split_slashes-first a t free.1 in
    (u, split_slashes-cons x (a ++ t) free.0 ∙ ap (◌∷◌ x) e)

-- A URL that is a scheme, "//", a host and a path, the first slash of which is the one behind the
-- host, has this path, from its slash on, as its relative form.
url_to_relative_lem :
    (scheme host path : List ℕ)
    → All (λ x. (x == slash) ≡ false) scheme
    → All (λ x. (x == slash) ≡ false) host
    → url_to_relative (scheme ++ slash ∷ slash ∷ (host ++ slash ∷ path)) ≡ some (slash ∷ path)
unfolding url_to_relative from_slash
url_to_relative_lem scheme host path s h =
    rw (split_slashes_lem scheme (host ++ slash ∷ path) s, find_lem slash host path h) refl

-- Behind a host component with a colon, no port is read.
extract_host-refuses : (h t : List ℕ) (p : Option ℕ) → extract_host (h ++ colon ∷ t) p ≡ none
unfolding extract_host host_and_port with_port
extract_host-refuses h t none = refl
extract_host-refuses h t (some port) =
    let (x, y, e) = find-some colon h t in rw (e) (rw (parse_u16-colon colon y refl) refl)

free_before_colon :
    (host : List ℕ)
    → All (λ x. (x == slash) ≡ false) host
    → All (λ x. (x == slash) ≡ false) (host ++ (colon ∷ []))
free_before_colon [] h = (refl, tt)
free_before_colon (x ∷ xs) h = (h.0, free_before_colon xs h.1)

names_port-refused :
    (scheme name host t : List ℕ)
    → All (λ x. (x == slash) ≡ false) scheme
    → All (λ x. (x == slash) ≡ false) host
    → without_last scheme ≡ some name
    → extract_host_addr_from_url (scheme ++ slash ∷ slash ∷ (host ++ colon ∷ t)) ≡ returned none
unfolding extract_host_addr_from_url extract_split extract_from
names_port-refused scheme name host t s h e =
    let named = host ++ (colon ∷ []) in
    let free = free_before_colon host h in
    let rest : host ++ colon ∷ t ≡ named ++ t = sym (append_assoc host (colon ∷ []) t) in
    let (u, cut) = split_slashes-first named t free in
    let (v, cut') = find-first named u free in
    let component = first (host ++ colon ∷ t) (split_slashes (host ++ colon ∷ t)) in
    let is : component ≡ named ++ u = ap (λ l. first l (split_slashes l)) rest ∙ cut in
    let host_is : first (component) (find slash (component)) ≡ host ++ colon ∷ v =
      ap (λ l. first l (find slash l)) is ∙ cut' ∙ append_assoc host (colon ∷ []) v in
    rw (split_slashes_lem scheme (host ++ colon ∷ t) s, e)
      (ap (λ l. returned (extract_host l (scheme_port name))) host_is
        ∙ ap returned (extract_host-refuses host v (scheme_port name)))

-- Whatever the URL is, the function extracts nothing but a host without a colon and a port that is the
-- default of a scheme (21, 443 or 80). A URL that names its port, that is, one with a colon in its host
-- component, behind a scheme that ends with a character of one byte, is refused.
pub extract_host_addr_from_url-ExtractsDefault :
    (url scheme name host t : List ℕ)
    → All (λ x. (x == slash) ≡ false) scheme
    → All (λ x. (x == slash) ≡ false) host
    → without_last scheme ≡ some name
    → ExtractsDefault (extract_host_addr_from_url url)
      × (extract_host_addr_from_url (scheme ++ slash ∷ slash ∷ (host ++ colon ∷ t)) ≡ returned none)
unfolding extract_host_addr_from_url
extract_host_addr_from_url-ExtractsDefault url scheme name host t s h e =
    (extract_split-ExtractsDefault (split_slashes url), names_port-refused scheme name host t s h e)
