-- ===== src/Utils/Tests.antt =====
-- shuttle/src/utils.rs: examples of URLs.
use noisy_shuttle.Base.{ℕ, ◌≡◌, refl, List, [], ◌∷◌, ◌++◌, none, some}
use noisy_shuttle.Utils.{
  find, split_slashes, parse_u16, parse_digits, without_last, same_str, scheme_port, panicked,
  returned, http, with_port, host_and_port, extract_host, extract_from, extract_split,
  extract_host_addr_from_url, url_to_relative, from_slash,
}
use noisy_shuttle.Utils.Url.{ExtractsDefault, extract_host_addr_from_url-ExtractsDefault}

-- http://ab/c
abbrev with_path : List ℕ
with_path = 104 ∷ 116 ∷ 116 ∷ 112 ∷ 58 ∷ 47 ∷ 47 ∷ 97 ∷ 98 ∷ 47 ∷ 99 ∷ []

-- http://a:80
abbrev explicit_port : List ℕ
explicit_port = 104 ∷ 116 ∷ 116 ∷ 112 ∷ 58 ∷ 47 ∷ 47 ∷ 97 ∷ 58 ∷ 56 ∷ 48 ∷ []

default_port : extract_host_addr_from_url with_path ≡ returned (some (97 ∷ 98 ∷ [], 80))
unfolding extract_host_addr_from_url extract_split extract_from extract_host host_and_port
    scheme_port same_str without_last find split_slashes
default_port = refl

port_refused : extract_host_addr_from_url explicit_port ≡ returned none
unfolding extract_host_addr_from_url extract_split extract_from extract_host host_and_port
    scheme_port same_str without_last find split_slashes with_port parse_u16 parse_digits
port_refused = refl

-- The URL //a.
no_scheme : extract_host_addr_from_url (47 ∷ 47 ∷ 97 ∷ []) ≡ panicked
unfolding extract_host_addr_from_url extract_split extract_from without_last split_slashes
no_scheme = refl

-- The second URL is http://a:80.
extract_host_addr_from_url-ExtractsDefault_example :
    ExtractsDefault (extract_host_addr_from_url with_path)
    × (extract_host_addr_from_url explicit_port ≡ returned none)
unfolding without_last
extract_host_addr_from_url-ExtractsDefault_example =
    extract_host_addr_from_url-ExtractsDefault with_path (http ++ (58 ∷ [])) http (97 ∷ [])
      (56 ∷ 48 ∷ []) (refl, (refl, (refl, (refl, (refl, tt))))) (refl, tt) refl

relative : url_to_relative with_path ≡ some (47 ∷ 99 ∷ [])
unfolding url_to_relative from_slash split_slashes find
relative = refl
