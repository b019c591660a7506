-- ===== src/Trace/Ported.antt =====
-- What an endpoint key is.
use nuclei_security_center.Common.{
  ℕ, ◌≤◌, ◌≡◌, refl, ◌⊎◌, inl, inr, false, ◌||◌, Option, none, some, [], Chars, ltb, ◌==◌, arith,
  Bool-cases, Option-cases,
}
use nuclei_security_center.Login.Clients.{trim_space}
use nuclei_security_center.Trace.Endpoint.{
  is_blank, NetLibrary, endpoint_key, key_of_text, key_of_authority, key_of_address,
  canonical_endpoint, joined, join_host_port, normalize_host, authority_of, has_host, count_of,
  trim_brackets, default_endpoint_port, cut_colon, port_or,
}

module _ (net : NetLibrary) where
  -- Unknown, or a host that is not empty with a port from 1 to 65535.
  abbrev pub Ported : Chars → Type 0
  Ported k =
      (k ≡ [])
      ⊎ ((host : Chars) × (n : ℕ) × (k ≡ join_host_port host (net.itoa n))
          × (is_blank host ≡ false)
          × (1 ≤ n)
          × (n ≤ 65535))

  joined-Ported : (host : Chars) (o : Option ℕ) → Ported (joined net host o)
  unfolding joined
  joined-Ported host none = inl refl
  joined-Ported host (some n) = elim (Bool-cases (is_blank host || (ltb n 1 || ltb 65535 n))) [
    | inl p ↦ rw (p) (inl refl)
    | inr p ↦ rw (p) (inr (host, n, refl, ground arith, ground arith, ground arith))
  ]

  canonical_endpoint-Ported : (host port : Chars) → Ported (canonical_endpoint net host port)
  unfolding canonical_endpoint
  canonical_endpoint-Ported host port = joined-Ported (normalize_host net host) (net.atoi port)

  key_of_address-Ported :
      (authority protocol : Chars) (o : Option Chars)
      → Ported (key_of_address net authority protocol o)
  unfolding key_of_address
  key_of_address-Ported authority protocol (some a) =
      canonical_endpoint-Ported a (default_endpoint_port net [] protocol)
  key_of_address-Ported authority protocol none = elim (Bool-cases (count_of 58 authority == 1)) [
    | inl p ↦
        rw (key_of_address, p)
          (canonical_endpoint-Ported (cut_colon authority).0 (cut_colon authority).1)
    | inr p ↦
        rw (key_of_address, p)
          (canonical_endpoint-Ported authority (default_endpoint_port net [] protocol))
  ]

  key_of_authority-Ported :
      (authority protocol : Chars) → Ported (key_of_authority net authority protocol)
  unfolding key_of_authority
  key_of_authority-Ported authority protocol = elim (Option-cases (net.split_host_port authority)) [
    | inl e ↦
        rw (key_of_authority, e)
          (key_of_address-Ported authority protocol (net.addr_text (trim_brackets authority)))
    | inr ((host, port), e) ↦ rw (key_of_authority, e) (canonical_endpoint-Ported host port)
  ]

  key_of_text-Ported : (raw protocol : Chars) → Ported (key_of_text net raw protocol)
  unfolding key_of_text
  key_of_text-Ported raw protocol = elim (Option-cases (has_host net (net.parse_url raw))) [
    | inl e ↦ rw (key_of_text, e) (key_of_authority-Ported (authority_of net raw) protocol)
    | inr (u, e) ↦
        rw (key_of_text, e)
          (canonical_endpoint-Ported u.hostname (port_or net u.port u.scheme protocol))
  ]

  -- Whatever text and protocol it is given, EndpointKey yields the empty text or a host that is not
  -- empty joined with a port from 1 to 65535: it never falls back to a host alone.
  pub endpoint_key-Ported : (raw protocol : Chars) → Ported (endpoint_key net raw protocol)
  unfolding endpoint_key
  endpoint_key-Ported raw protocol = elim (Bool-cases (is_blank (trim_space raw))) [
    | inl p ↦ rw (endpoint_key, p) (inl refl)
    | inr p ↦ rw (endpoint_key, p) (key_of_text-Ported (trim_space raw) protocol)
  ]
