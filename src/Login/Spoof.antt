-- ===== src/Login/Spoof.antt =====
-- What a client writes into X-Forwarded-For cannot change what the trusted proxies appended.
use nuclei_security_center.Common.{
  ℕ, zero, suc, ◌≡◌, ◌≢◌, refl, sym, ◌∙◌, false, Option, none, some, List, [], ◌∷◌, ◌++◌, arith,
  Chars, Option-cases, drop, length, ◌-◌, inl, inr, Bool-cases,
}
use nuclei_security_center.Scope.{Addr, Prefix}
use nuclei_security_center.Login.Clients.{trim_space}
use nuclei_security_center.Login.Proxy.{
  unmap, contains_trusted_proxy, comma, behind, split_last, untrusted, hop_addr, or_else, walk,
  forwarded_client_ip, max_forwarded_for_hops, max_forwarded_for_bytes,
}

-- The cut of a text that has a comma in it, from the cut of what is behind that comma.
abbrev cut : Chars → Chars → Option (Chars × Chars) → Option (Chars × Chars)
cut p t none = some (p, t)
cut p t (some r) = some (p ++ comma ∷ r.0, r.1)

behind-cut :
    (c : ℕ) (p t s : Chars) (o : Option (Chars × Chars)) → behind c s (cut p t o) ≡ cut (c ∷ p) t o
unfolding behind
behind-cut c p t s none = refl
behind-cut c p t s (some r) = refl

split_last-append : (p t : Chars) → split_last (p ++ comma ∷ t) ≡ cut p t (split_last t)
unfolding split_last
split_last-append [] t = elim (Option-cases (split_last t)) [
  | inl e ↦ rw e (unfold behind in refl)
  | inr (r, e) ↦ rw e (unfold behind in refl)
]
split_last-append (c ∷ p) t =
    rw (split_last-append p t) (behind-cut c p t (p ++ comma ∷ t) (split_last t))

module _ (parse_addr : Chars → Option Addr) (trusted : List Prefix) where
  -- The rest of a round behind the cut.
  abbrev hop : ℕ → Chars → Option (Chars × Chars) → Option Addr
  hop hops s none = hop_addr parse_addr trusted s
  hop hops s (some r) =
      or_else parse_addr trusted (hop_addr parse_addr trusted r.1)
        (walk parse_addr trusted hops r.0)

  walk-hop :
      (hops c : ℕ) (s : Chars)
      → walk parse_addr trusted (suc hops) (c ∷ s) ≡ hop hops (c ∷ s) (split_last (c ∷ s))
  unfolding walk
  walk-hop hops c s = elim (Option-cases (split_last (c ∷ s))) [
    | inl e ↦ rw (walk, e) refl
    | inr (r, e) ↦ rw (walk, e) refl
  ]

  walk-append :
      (hops : ℕ) (p t : Chars)
      → walk parse_addr trusted (suc hops) (p ++ comma ∷ t)
        ≡ hop hops (p ++ comma ∷ t) (cut p t (split_last t))
  walk-append hops [] t = rw (walk-hop hops comma t, split_last-append [] t) refl
  walk-append hops (c ∷ p) t =
      rw (walk-hop hops c (p ++ comma ∷ t), split_last-append (c ∷ p) t) refl

  or_else-some :
      (o rest : Option Addr) (a : Addr) → o ≡ some a → or_else parse_addr trusted o rest ≡ some a
  or_else-some none rest a h = ground arith
  or_else-some (some b) rest a h = h

  or_else-same :
      (o rest rest' : Option Addr) (a : Addr)
      → or_else parse_addr trusted o rest ≡ some a
      → (rest ≡ some a → rest' ≡ some a)
      → or_else parse_addr trusted o rest' ≡ some a
  or_else-same none rest rest' a h i = i h
  or_else-same (some b) rest rest' a h i = h

  prepend-hop :
      (hops : ℕ) (p s : Chars) (a : Addr) (o : Option (Chars × Chars))
      → ((r : Chars)
          → walk parse_addr trusted hops r ≡ some a
          → walk parse_addr trusted hops (p ++ comma ∷ r) ≡ some a)
      → hop hops s o ≡ some a
      → hop hops (p ++ comma ∷ s) (cut p s o) ≡ some a
  prepend-hop hops p s a none i h = or_else-some _ (walk parse_addr trusted hops p) a h
  prepend-hop hops p s a (some r) i h =
      or_else-same (hop_addr parse_addr trusted r.1) (walk parse_addr trusted hops r.0)
        (walk parse_addr trusted hops (p ++ comma ∷ r.0)) a h (i r.0)

  walk-nothing : (hops : ℕ) (a : Addr) → walk parse_addr trusted hops [] ≢ some a
  unfolding walk
  walk-nothing zero a h = ground arith
  walk-nothing (suc hops) a h = ground arith

  walk-stopped : (t : Chars) (a : Addr) → walk parse_addr trusted zero t ≢ some a
  unfolding walk
  walk-stopped t a h = ground arith

  -- If the walk over a text finds an address, the walk with as many hops finds the same address
  -- whatever stands before that text and a comma.
  pub walk-prepend :
      (hops : ℕ) (p t : Chars) (a : Addr)
      → walk parse_addr trusted hops t ≡ some a
      → walk parse_addr trusted hops (p ++ comma ∷ t) ≡ some a
  walk-prepend zero p t a h = elim (walk-stopped t a h) [ ]
  walk-prepend (suc hops) p [] a h = elim (walk-nothing (suc hops) a h) [ ]
  walk-prepend (suc hops) p (c ∷ t) a h =
      walk-append hops p (c ∷ t)
      ∙ prepend-hop hops p (c ∷ t) a (split_last (c ∷ t)) (λ r. walk-prepend hops p r a)
          (sym (walk-hop hops c t) ∙ h)

  hop_addr-untrusted :
      (o : Option Addr) (a : Addr)
      → untrusted parse_addr trusted o ≡ some a
      → contains_trusted_proxy trusted a ≡ false
  unfolding untrusted
  hop_addr-untrusted none a h = ground arith
  hop_addr-untrusted (some b) a h = elim (Bool-cases (contains_trusted_proxy trusted (unmap b))) [
    | inl t ↦ ground arith
    | inr f ↦ ground arith
  ]

  or_else-untrusted :
      (o rest : Option Addr) (a : Addr)
      → (o ≡ some a → contains_trusted_proxy trusted a ≡ false)
      → (rest ≡ some a → contains_trusted_proxy trusted a ≡ false)
      → or_else parse_addr trusted o rest ≡ some a
      → contains_trusted_proxy trusted a ≡ false
  or_else-untrusted none rest a f g h = g h
  or_else-untrusted (some b) rest a f g h = f h

  token-untrusted :
      (token : Chars) (a : Addr)
      → hop_addr parse_addr trusted token ≡ some a
      → contains_trusted_proxy trusted a ≡ false
  unfolding hop_addr
  token-untrusted token a h = hop_addr-untrusted (parse_addr (trim_space token)) a h

  hop-untrusted :
      (hops : ℕ) (s : Chars) (a : Addr) (o : Option (Chars × Chars))
      → ((r : Chars)
          → walk parse_addr trusted hops r ≡ some a
          → contains_trusted_proxy trusted a ≡ false)
      → hop hops s o ≡ some a
      → contains_trusted_proxy trusted a ≡ false
  hop-untrusted hops s a none i h = token-untrusted s a h
  hop-untrusted hops s a (some r) i h =
      or_else-untrusted (hop_addr parse_addr trusted r.1) (walk parse_addr trusted hops r.0) a
        (token-untrusted r.1 a) (i r.0) h

  walk-untrusted :
      (hops : ℕ) (t : Chars) (a : Addr)
      → walk parse_addr trusted hops t ≡ some a
      → contains_trusted_proxy trusted a ≡ false
  walk-untrusted zero t a h = elim (walk-stopped t a h) [ ]
  walk-untrusted (suc hops) [] a h = elim (walk-nothing (suc hops) a h) [ ]
  walk-untrusted (suc hops) (c ∷ t) a h =
      hop-untrusted hops (c ∷ t) a (split_last (c ∷ t)) (λ r. walk-untrusted hops r a)
        (sym (walk-hop hops c t) ∙ h)

  -- The address that a header yields is never one of a trusted proxy.
  pub forwarded_client_ip-untrusted :
      (header : Chars) (a : Addr)
      → forwarded_client_ip parse_addr trusted header ≡ some a
      → contains_trusted_proxy trusted a ≡ false
  unfolding forwarded_client_ip
  forwarded_client_ip-untrusted header a h =
      walk-untrusted max_forwarded_for_hops
        (drop (length (trim_space header) - max_forwarded_for_bytes) (trim_space header)) a h
