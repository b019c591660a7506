-- ===== src/Login/Proxy.antt =====
-- `forwardedClientIP`, `containsTrustedProxy` and `normalizeTrustedProxyPrefix` of
-- internal/backend/auth_login_admission.go. `netip.ParseAddr` is a parameter. The header is read as
-- bytes.
use nuclei_security_center.Common.{
  ℕ, zero, suc, ◌-◌, ◌/◌, ◌%◌, ◌^◌, Bool, true, false, ◌&&◌, Option, none, some, List, [], ◌∷◌, leb,
  ◌==◌, length, drop, any, if◌then◌else◌, Chars,
}
use nuclei_security_center.Scope.{Family, v4, v6, Addr, Prefix, contains}
use nuclei_security_center.Login.Clients.{trim_space}

abbrev pub is_v6 : Family → Bool
is_v6 v4 = false
is_v6 v6 = true

-- `Addr.Is4In6`: the IPv6 addresses `::ffff:0:0/96`.
unfoldable pub is_4in6 : Addr → Bool
is_4in6 a = is_v6 a.family && (a.value / 2 ^ 32 == 65535)

-- `Addr.Unmap`
unfoldable pub unmap : Addr → Addr
unfolding is_4in6
unmap a = if is_4in6 a then record { family = v4; value = a.value % 2 ^ 32; zone = [] } else a

unfoldable pub contains_trusted_proxy : List Prefix → Addr → Bool
unfolding unmap
contains_trusted_proxy prefixes a = any (λ p. contains p (unmap a)) prefixes

-- `normalizeTrustedProxyPrefix` on a masked prefix.
unfoldable pub normalize_trusted_proxy_prefix : Prefix → Prefix
unfolding unmap
normalize_trusted_proxy_prefix p =
    if is_4in6 p.addr && leb 96 p.bits
    then record { addr = unmap p.addr; bits = p.bits - 96 }
    else p

abbrev pub comma : ℕ
comma = 44

unfoldable pub behind : ℕ → Chars → Option (Chars × Chars) → Option (Chars × Chars)
behind c s none = if c == comma then some ([], s) else none
behind c s (some r) = some (c ∷ r.0, r.1)

-- What stands before and behind the last comma.
unfoldable pub split_last : Chars → Option (Chars × Chars)
unfolding behind
split_last [] = none
split_last (c ∷ s) = behind c s (split_last s)

abbrev pub max_forwarded_for_bytes : ℕ
max_forwarded_for_bytes = 4096

abbrev pub max_forwarded_for_hops : ℕ
max_forwarded_for_hops = 32

module _ (parse_addr : Chars → Option Addr) (trusted : List Prefix) where
  unfoldable pub untrusted : Option Addr → Option Addr
  unfolding contains_trusted_proxy unmap
  untrusted none = none
  untrusted (some a) = if contains_trusted_proxy trusted (unmap a) then none else some (unmap a)

  -- The address of a hop, if it parses and is not trusted.
  unfoldable pub hop_addr : Chars → Option Addr
  unfolding untrusted trim_space
  hop_addr token = untrusted (parse_addr (trim_space token))

  abbrev pub or_else : Option Addr → Option Addr → Option Addr
  or_else none rest = rest
  or_else (some a) rest = some a

  -- The loop, for the hops that are left.
  unfoldable pub walk : ℕ → Chars → Option Addr
  unfolding hop_addr split_last
  walk zero remaining = none
  walk (suc hops) [] = none
  walk (suc hops) (c ∷ s) = elim (split_last (c ∷ s)) [
    | none ↦ hop_addr (c ∷ s)
    | some r ↦ or_else (hop_addr r.1) (walk hops r.0)
  ]

  unfoldable pub forwarded_client_ip : Chars → Option Addr
  unfolding walk trim_space
  forwarded_client_ip header =
      let trimmed = trim_space header in
      walk max_forwarded_for_hops (drop (length trimmed - max_forwarded_for_bytes) trimmed)
