-- ===== src/Examples/Login.antt =====
-- Runs of the login admission and of the walk over X-Forwarded-For.
use nuclei_security_center.Common.{
  ℕ, ◌≡◌, refl, Bool, true, false, Option, none, some, List, [], ◌∷◌, ◌++◌, Chars, ltb,
  if◌then◌else◌, ◌-◌,
}
use nuclei_security_center.Scope.{v4, Addr, Prefix, contains}
use nuclei_security_center.Login.Clients.{is_space, trim_left, trim_space}
use nuclei_security_center.Login.Proxy.{
  unmap, is_4in6, contains_trusted_proxy, comma, behind, split_last, untrusted, hop_addr, walk,
  forwarded_client_ip,
}
use nuclei_security_center.Login.Spoof.{walk-prepend, forwarded_client_ip-untrusted}

-- A bucket that counts down.
abbrev take_token : ℕ → ℕ → ℕ × Bool
take_token now n = if ltb 0 n then (n - 1, true) else (n, false)

abbrev ip : ℕ → Addr
ip n = record { family = v4; value = n; zone = [] }

-- Texts of one digit are addresses; the address 1 is a trusted proxy.
abbrev parse_addr : Chars → Option Addr
parse_addr (c ∷ []) = some (ip (c - 48))
parse_addr _ = none

abbrev proxies : List Prefix
proxies = record { addr = ip 1; bits = 32 } ∷ []

-- The client sends "7"; the proxies append "9,1".
walk-prepend_example :
    walk parse_addr proxies 32 ((55 ∷ []) ++ comma ∷ 57 ∷ 44 ∷ 49 ∷ []) ≡ some (ip 9)
unfolding walk hop_addr untrusted contains_trusted_proxy contains unmap is_4in6 split_last behind
    trim_space trim_left is_space
walk-prepend_example = walk-prepend parse_addr proxies 32 (55 ∷ []) (57 ∷ 44 ∷ 49 ∷ []) (ip 9) refl

forwarded_client_ip-untrusted_example : contains_trusted_proxy proxies (ip 9) ≡ false
unfolding forwarded_client_ip walk hop_addr untrusted contains unmap is_4in6 split_last behind
    trim_space trim_left is_space
forwarded_client_ip-untrusted_example =
    forwarded_client_ip-untrusted parse_addr proxies (57 ∷ 44 ∷ 49 ∷ []) (ip 9) refl
