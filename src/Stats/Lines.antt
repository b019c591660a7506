-- ===== src/Stats/Lines.antt =====
-- The lines do not depend on how the output is cut into writes.
use nuclei_security_center.Common.{
  ℕ, zero, suc, ◌+◌, ◌-◌, ◌≤◌, ◌≡◌, refl, ap, sym, ◌∙◌, true, false, List, [], ◌∷◌, ◌++◌,
  append_assoc, append-nil, if◌then◌else◌, Chars, length, length-append, length-drop, drop, leb,
  ◌==◌, arith, Bool-cases, inl, inr,
}
use nuclei_security_center.Stats.{StatsWriter, append_pending_line, write_from, write}

drop_all : (n : ℕ) (s t : Chars) → length s ≤ n → drop n (s ++ t) ≡ drop (n - length s) t
drop_all n [] t h = ap (λ k. drop k t) (omega arith)
drop_all zero (c ∷ s) t h = ground (arith, h)
drop_all (suc n) (c ∷ s) t h = drop_all n s t (omega (arith, h)) ∙ ap (λ k. drop k t) (omega arith)

drop_part : (n : ℕ) (s t : Chars) → n ≤ length s → drop n (s ++ t) ≡ drop n s ++ t
drop_part zero s t h = refl
drop_part (suc n) [] t h = ground (arith, h)
drop_part (suc n) (c ∷ s) t h = drop_part n s t (omega (arith, h))

-- The last `n` bytes.
abbrev pub last : ℕ → Chars → Chars
last n s = drop (length s - n) s

length-last_le : (n : ℕ) (s : Chars) → length (last n s) ≤ n
length-last_le n s = omega (arith, length-drop (length s - n) s)

drop_eq : (m n : ℕ) (s : Chars) → m ≡ n → drop m s ≡ drop n s
drop_eq m n s e = ap (λ k. drop k s) e

drop-nil : (n : ℕ) → drop {A = ℕ} n [] ≡ []
drop-nil zero = refl
drop-nil (suc n) = refl

drop-drop : (m n : ℕ) (s : Chars) → drop m (drop n s) ≡ drop (n + m) s
drop-drop m zero s = drop_eq m (0 + m) s (omega arith)
drop-drop m (suc n) [] = drop-nil m ∙ sym (drop-nil (suc n + m))
drop-drop m (suc n) (c ∷ s) =
    drop-drop m n s ∙ drop_eq (suc (n + m)) (suc n + m) (c ∷ s) (omega arith)

module _ (n : ℕ) where
  append_pending_line-last : (buf p : Chars) → append_pending_line n buf p ≡ last n (buf ++ p)
  unfolding append_pending_line
  append_pending_line-last buf p = elim (Bool-cases (leb n (length p))) [
    | inl h ↦ rw (append_pending_line, h) (sym (long h))
    | inr h ↦ rw (append_pending_line, h) (sym (short h))
  ]
    where
      long : leb n (length p) ≡ true → last n (buf ++ p) ≡ drop (length p - n) p
      long h =
          drop_all (length (buf ++ p) - n) buf p (ground (arith, h, length-append buf p))
          ∙ drop_eq (length (buf ++ p) - n - length buf) (length p - n) p
              (omega (arith, length-append buf p))

      short :
          leb n (length p) ≡ false → last n (buf ++ p) ≡ drop (length buf + length p - n) buf ++ p
      short h =
          drop_part (length (buf ++ p) - n) buf p (ground (arith, h, length-append buf p))
          ∙ ap (λ s. s ++ p)
              (drop_eq (length (buf ++ p) - n) (length buf + length p - n) buf
                (omega (arith, length-append buf p)))

  last-append : (s t : Chars) → last n (last n s ++ t) ≡ last n (s ++ t)
  last-append s t =
      let a = length s - n in
      ap (last n) (sym (drop_part a s t (omega arith)))
      ∙ (drop-drop (length (drop a (s ++ t)) - n) a (s ++ t)
          ∙ drop_eq (a + (length (drop a (s ++ t)) - n)) (length (s ++ t) - n) (s ++ t)
              (omega (arith, length-drop a (s ++ t), length-append s t)))

  -- One byte at a time: a newline ends the line, any other byte is added to it.
  abbrev pub put_byte : StatsWriter → ℕ → StatsWriter
  put_byte w c =
      if c == 10
      then record { buf = []; handled = w.handled ++ (w.buf ∷ []) }
      else record w { buf = last n (w.buf ++ (c ∷ [])) }

  abbrev pub put_bytes : StatsWriter → Chars → StatsWriter
  put_bytes w [] = w
  put_bytes w (c ∷ p) = put_bytes (put_byte w c) p

  last-short : (s : Chars) → length s ≤ n → last n s ≡ s
  last-short s h = drop_eq (length s - n) 0 s (omega (arith, h))

  last-last-append :
      (buf line : Chars) (c : ℕ)
      → last n (buf ++ (line ++ (c ∷ []))) ≡ last n (last n (buf ++ line) ++ (c ∷ []))
  last-last-append buf line c =
      ap (last n) (sym (append_assoc buf line (c ∷ []))) ∙ sym (last-append (buf ++ line) (c ∷ []))

  write_from-put_bytes :
      (w : StatsWriter) (line p : Chars)
      → length w.buf ≤ n
      → write_from n w line p ≡ put_bytes (record w { buf = last n (w.buf ++ line) }) p
  unfolding write_from
  write_from-put_bytes w [] [] h =
      ap (λ b. record w { buf = b }) (sym (ap (last n) (append-nil w.buf) ∙ last-short w.buf h))
  write_from-put_bytes w (d ∷ line) [] h =
      ap (λ b. record w { buf = b }) (append_pending_line-last w.buf (d ∷ line))
  write_from-put_bytes w line (c ∷ p) h = elim (Bool-cases (c == 10)) [
    | inl e ↦
        rw (write_from, e, append_pending_line-last w.buf line)
          (write_from-put_bytes
              (record { buf = []; handled = w.handled ++ (last n (w.buf ++ line) ∷ []) }) [] p
              (omega arith)
            ∙ ap
                (λ b.
                  put_bytes
                    (record { buf = b; handled = w.handled ++ (last n (w.buf ++ line) ∷ []) }) p)
                (drop-nil (0 - n)))
    | inr e ↦
        rw (write_from, e)
          (write_from-put_bytes w (line ++ (c ∷ [])) p h
            ∙ ap (λ b. put_bytes (record w { buf = b }) p) (last-last-append w.buf line c))
  ]

  put_bytes-append :
      (w : StatsWriter) (p q : Chars) → put_bytes w (p ++ q) ≡ put_bytes (put_bytes w p) q
  put_bytes-append w [] q = refl
  put_bytes-append w (c ∷ p) q = put_bytes-append (put_byte w c) p q

  put_byte_le : (w : StatsWriter) (c : ℕ) → length (put_byte w c).buf ≤ n
  put_byte_le w c = elim (Bool-cases (c == 10)) [
    | inl e ↦ rw (e) (omega arith)
    | inr e ↦ rw (e) (length-last_le n (w.buf ++ (c ∷ [])))
  ]

  put_bytes_le : (w : StatsWriter) (p : Chars) → length w.buf ≤ n → length (put_bytes w p).buf ≤ n
  put_bytes_le w [] h = h
  put_bytes_le w (c ∷ p) h = put_bytes_le (put_byte w c) p (put_byte_le w c)

  write-put_bytes : (w : StatsWriter) (p : Chars) → length w.buf ≤ n → write n w p ≡ put_bytes w p
  unfolding write
  write-put_bytes w p h =
      write_from-put_bytes w [] p h
      ∙ ap (λ b. put_bytes (record w { buf = b }) p)
          (ap (last n) (append-nil w.buf) ∙ last-short w.buf h)

  abbrev pub writes : StatsWriter → List Chars → StatsWriter
  writes w [] = w
  writes w (p ∷ ps) = writes (write n w p) ps

  abbrev pub joined_writes : List Chars → Chars
  joined_writes [] = []
  joined_writes (p ∷ ps) = p ++ joined_writes ps

  writes_same :
      (w : StatsWriter) (ps : List Chars)
      → length w.buf ≤ n
      → writes w ps ≡ put_bytes w (joined_writes ps)
  writes_same w [] h = refl
  writes_same w (p ∷ ps) h = rw (write-put_bytes w p h) (
      writes_same (put_bytes w p) ps (put_bytes_le w p h)
      ∙ sym (put_bytes-append w p (joined_writes ps)))

  -- However the output is cut into writes, the writer handles the same lines and keeps the same bytes
  -- as if it were given byte by byte, each line cut to its last bytes; and it never keeps more than
  -- the limit.
  pub writes-put_bytes :
      (w : StatsWriter) (ps : List Chars)
      → length w.buf ≤ n
      → (writes w ps ≡ put_bytes w (joined_writes ps)) × (length (writes w ps).buf ≤ n)
  writes-put_bytes w ps h =
      (writes_same w ps h, rw (writes_same w ps h) (put_bytes_le w (joined_writes ps) h))
