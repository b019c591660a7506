-- ===== src/Trace/Endpoint.antt =====
-- `EndpointKey`, internal/types/endpointkey.go. The empty text stands for an unknown endpoint.
-- Parameters are what it calls of Go's packages net, net/netip, net/url, strconv and strings.
use nuclei_security_center.Common.{
  ℕ, suc, Bool, true, false, ◌||◌, Option, none, some, [], ◌∷◌, ◌++◌, if◌then◌else◌, Chars,
  chars_eq, codes, reverse, ltb, ◌==◌,
}
use nuclei_security_center.Login.Clients.{trim_space}

abbrev pub is_blank : Chars → Bool
is_blank [] = true
is_blank (c ∷ s) = false

-- `url.Parse`, as far as it is read: the scheme, the host name and the port.
pub record ParsedUrl : Type 0 where
  pub scheme : Chars
  pub hostname : Chars
  pub port : Chars

-- `addr_text` is `addr.String()` of what `netip.ParseAddr` reads; `atoi` gives a number that is not
-- negative.
pub record NetLibrary : Type 0 where
  pub parse_url : Chars → Option ParsedUrl
  pub split_host_port : Chars → Option (Chars × Chars)
  pub addr_text : Chars → Option Chars
  pub to_lower : Chars → Chars
  pub atoi : Chars → Option ℕ
  pub itoa : ℕ → Chars

-- What stands before the first of the code points that `stop` names.
unfoldable pub before_any : (ℕ → Bool) → Chars → Chars
before_any stop [] = []
before_any stop (c ∷ s) = let rest = before_any stop s in if stop c then [] else c ∷ rest

-- What stands behind the last `c`, or the whole text.
abbrev after_or : ℕ → ℕ → Chars → Option Chars → Option Chars
after_or c d s (some t) = some t
after_or c d s none = if d == c then some s else none

unfoldable pub after_last : ℕ → Chars → Option Chars
after_last c [] = none
after_last c (d ∷ s) = after_or c d s (after_last c s)

abbrev pub or_all : Chars → Option Chars → Chars
or_all s none = s
or_all s (some t) = t

unfoldable pub count_of : ℕ → Chars → ℕ
count_of c [] = 0
count_of c (d ∷ s) = let rest = count_of c s in if d == c then suc rest else rest

abbrev is_bracket : ℕ → Bool
is_bracket c = (c == 91) || (c == 93)

unfoldable pub trim_left_brackets : Chars → Chars
trim_left_brackets [] = []
trim_left_brackets (c ∷ s) = let rest = trim_left_brackets s in if is_bracket c then rest else c ∷ s

-- `strings.Trim(s, "[]")`
unfoldable pub trim_brackets : Chars → Chars
unfolding trim_left_brackets
trim_brackets s = reverse (trim_left_brackets (reverse (trim_left_brackets s)))

-- `strings.TrimSuffix(s, ".")`
abbrev without_dot : Chars → Chars
without_dot [] = []
without_dot (c ∷ s) = if c == 46 then reverse s else reverse (c ∷ s)

-- `net.JoinHostPort`
unfoldable pub join_host_port : Chars → Chars → Chars
unfolding count_of
join_host_port host port =
    if ltb 0 (count_of 58 host)
    then codes "[" ++ (host ++ (codes "]:" ++ port))
    else host ++ (codes ":" ++ port)

-- A text split at its first colon.
unfoldable pub cut_colon : Chars → Chars × Chars
cut_colon [] = ([], [])
cut_colon (c ∷ s) = let rest = cut_colon s in if c == 58 then ([], s) else (c ∷ rest.0, rest.1)

module _ (net : NetLibrary) where
  abbrev pub text_is : Chars → Chars → Bool
  text_is s t = chars_eq (net.to_lower s) t

  unfoldable pub default_endpoint_port : Chars → Chars → Chars
  default_endpoint_port scheme protocol =
      if text_is scheme (codes "http") || text_is scheme (codes "ws")
      then codes "80"
      else if text_is scheme (codes "https") || text_is scheme (codes "wss")
      then codes "443"
      else if text_is protocol (codes "http")
      then codes "80"
      else if text_is protocol (codes "https")
      then codes "443"
      else if text_is protocol (codes "ssl") || text_is protocol (codes "tls")
      then codes "443"
      else if text_is protocol (codes "dns")
      then codes "53"
      else if text_is protocol (codes "whois")
      then codes "43"
      else []

  abbrev or_lower : Chars → Option Chars → Chars
  or_lower host (some a) = a
  or_lower host none = without_dot (reverse (net.to_lower host))

  unfoldable pub normalize_host : Chars → Chars
  unfolding trim_space trim_brackets
  normalize_host host = let h = trim_space (trim_brackets host) in or_lower h (net.addr_text h)

  unfoldable pub joined : Chars → Option ℕ → Chars
  unfolding join_host_port
  joined host none = []
  joined host (some n) =
      if is_blank host || (ltb n 1 || ltb 65535 n) then [] else join_host_port host (net.itoa n)

  unfoldable pub canonical_endpoint : Chars → Chars → Chars
  unfolding normalize_host joined
  canonical_endpoint host port = joined (normalize_host host) (net.atoi port)

  abbrev pub port_or : Chars → Chars → Chars → Chars
  port_or port scheme protocol =
      if is_blank port then default_endpoint_port scheme protocol else port

  abbrev pub is_path : ℕ → Bool
  is_path c = (c == 47) || ((c == 63) || (c == 35))

  unfoldable pub authority_of : Chars → Chars
  unfolding before_any after_last
  authority_of raw = let a = before_any is_path raw in or_all a (after_last 64 a)

  -- The forms that are not URLs with a host name.
  unfoldable pub key_of_address : Chars → Chars → Option Chars → Chars
  unfolding default_endpoint_port canonical_endpoint count_of cut_colon
  key_of_address authority protocol (some a) =
      canonical_endpoint a (default_endpoint_port [] protocol)
  key_of_address authority protocol none =
      if count_of 58 authority == 1
      then canonical_endpoint (cut_colon authority).0 (cut_colon authority).1
      else canonical_endpoint authority (default_endpoint_port [] protocol)

  unfoldable pub key_of_authority : Chars → Chars → Chars
  unfolding key_of_address canonical_endpoint trim_brackets
  key_of_authority authority protocol = elim (net.split_host_port authority) [
    | some (host, port) ↦ canonical_endpoint host port
    | none ↦ key_of_address authority protocol (net.addr_text (trim_brackets authority))
  ]

  abbrev pub has_host : Option ParsedUrl → Option ParsedUrl
  has_host none = none
  has_host (some u) = if is_blank u.hostname then none else some u

  unfoldable pub key_of_text : Chars → Chars → Chars
  unfolding key_of_authority authority_of default_endpoint_port canonical_endpoint
  key_of_text raw protocol = elim (has_host (net.parse_url raw)) [
    | some u ↦ canonical_endpoint u.hostname (port_or u.port u.scheme protocol)
    | none ↦ key_of_authority (authority_of raw) protocol
  ]

  unfoldable pub endpoint_key : Chars → Chars → Chars
  unfolding trim_space key_of_text
  endpoint_key raw protocol =
      let s = trim_space raw in if is_blank s then [] else key_of_text s protocol
