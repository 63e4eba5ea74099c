-- ===== src/Compress/Roundtrip.antt =====
-- decompress after compress.
use clipboard.Prelude.{
  ℕ, zero, suc, ◌+◌, ◌-◌, ◌%◌, ◌≤◌, ◌<◌, ◌≡◌, refl, ◌≢◌, inl, inr, arith, Bool, true, false, List,
  [], ◌∷◌, ◌++◌, replicate, append_assoc, append-nil, sym, ◌∙◌, ap, subst, eq_cases, ne→==_false,
  eq→==, u32_mod,
}
use clipboard.Compress.{
  alphabet_size, isdigit, push_char, push_int, push_char_count, compress_from, compress,
  Decompressor, flush, take_char, decompress_from, decompress_start, decompress, push_decompressed,
}
use clipboard.Compress.Runs.{push_decompressed_lem, decompress_from-append, read_int}

abbrev pub NoDigits : List ℕ → Type 0
NoDigits [] = Unit {0}
NoDigits (c ∷ src) = (isdigit c ≡ false) × NoDigits src

-- No character stands 26 times in a row.
abbrev pub ShortRuns : List ℕ → Type 0
ShortRuns src = (p q : List ℕ) (c : ℕ) → src ≢ p ++ replicate alphabet_size c ++ q

abbrev after_char : List ℕ → ℕ → ℕ → Bool → Decompressor
after_char t c n p = record { dst = t ++ c ∷ []; count = n; last_char = c; parsing = p }

abbrev with_count : ℕ → Decompressor → Decompressor
with_count n s = record s { count = n; parsing = true }

-- Behind `dst` the decompressor has the text `t`, and is ready for the next character.
abbrev Reads : List ℕ → List ℕ → Type 0
Reads dst t =
    ((c : ℕ) → take_char c (decompress_from dst decompress_start) ≡ after_char t c 0 false)
    × (flush (decompress_from dst decompress_start) ≡ t)

replicate_snoc : (t : List ℕ) (c n : ℕ) → t ++ replicate (suc n) c ≡ (t ++ c ∷ []) ++ replicate n c
replicate_snoc t c n = sym (append_assoc t (c ∷ []) (replicate n c))

take-after_char :
    (t : List ℕ) (c n : ℕ) (p : Bool) (c' : ℕ)
    → take_char c' (after_char t c n p) ≡ after_char (flush (after_char t c n p)) c' 0 false
take-after_char [] c n p c' = refl
take-after_char (x ∷ t) c n p c' = refl

Reads-after_char :
    (dst t u : List ℕ) (c n : ℕ) (p : Bool)
    → decompress_from dst decompress_start ≡ after_char t c n p
    → flush (after_char t c n p) ≡ u
    → Reads dst u
Reads-after_char dst t u c n p e f = (
  λ c'. ap (take_char c') e ∙ take-after_char t c n p c' ∙ ap (λ v. after_char v c' 0 false) f,
  ap flush e ∙ f,
)

read_char :
    (dst t : List ℕ) (c : ℕ)
    → isdigit c ≡ false
    → Reads dst t
    → decompress_from (push_char dst c) decompress_start ≡ after_char t c 0 false
unfolding decompress_from
read_char dst t c h (ready, text) =
    decompress_from-append dst (c ∷ []) decompress_start ∙ rw h (ready c)

read_run :
    (dst t : List ℕ) (c n : ℕ)
    → isdigit c ≡ false
    → n < alphabet_size
    → Reads dst t
    → Reads (push_char_count dst c n) (t ++ replicate n c)
unfolding push_char_count
read_run dst t c zero h l r = rw (append-nil t) r
read_run dst t c (suc zero) h l r =
    Reads-after_char (push_char dst c) t (t ++ c ∷ []) c 0 false (read_char dst t c h r)
      (push_decompressed_lem (t ++ c ∷ []) c 0 ∙ append-nil (t ++ c ∷ []))
read_run dst t c (suc (suc n)) h l r =
    rw
      (
        ne→==_false (suc (suc n)) 0 (λ e. omega arith),
        ne→==_false (suc (suc n)) 1 (λ e. omega arith),
      )
      (Reads-after_char (push_int (push_char dst c) (suc (suc n))) t
        (t ++ replicate (suc (suc n)) c) c (suc (suc n)) true
        (read_int (push_char dst c) (suc (suc n)) decompress_start
            (ap (λ (s : Decompressor). s.parsing) (read_char dst t c h r)) (omega arith) l
          ∙ ap (with_count (suc (suc n))) (read_char dst t c h r))
        (push_decompressed_lem (t ++ c ∷ []) c (suc (suc n))
          ∙ ap (λ k. (t ++ c ∷ []) ++ replicate k c) (pred n)
          ∙ sym (replicate_snoc t c (suc n))))
  where
    pred : (k : ℕ) → suc (suc k) - 1 ≡ suc k
    pred k = omega arith

-- A run of at most 26 with nothing like that in the text: it can grow by one.
short_run :
    (c n : ℕ) (src : List ℕ)
    → n ≤ alphabet_size
    → ShortRuns (replicate n c ++ src)
    → n < alphabet_size
short_run c n src l s = elim (eq_cases n alphabet_size) [
  | inl full ↦ absurd (s [] src c (ap (λ k. replicate k c ++ src) full))
  | inr ne ↦ omega arith
]

ShortRuns-tail : (xs ys : List ℕ) → ShortRuns (xs ++ ys) → ShortRuns ys
ShortRuns-tail xs ys s p q c e = s (xs ++ p) q c (
    ap (λ zs. xs ++ zs) e
    ∙ sym (append_assoc xs (p ++ replicate alphabet_size c) q)
    ∙ ap (λ zs. zs ++ q) (sym (append_assoc xs p (replicate alphabet_size c))))

grown : (n c : ℕ) (src : List ℕ) → replicate n c ++ c ∷ src ≡ replicate (suc n) c ++ src
grown zero c src = refl
grown (suc n) c src = ap (λ xs. c ∷ xs) (grown n c src)

compress_from_lem :
    (src dst t : List ℕ) (last_char n : ℕ)
    → Reads dst t
    → NoDigits src
    → isdigit last_char ≡ false
    → n < alphabet_size
    → ShortRuns (replicate n last_char ++ src)
    → decompress (compress_from src dst last_char n) ≡ t ++ replicate n last_char ++ src
unfolding compress_from decompress
compress_from_lem [] dst t last_char n r d h l s =
    (read_run dst t last_char n h l r).1 ∙ sym (append-nil (t ++ replicate n last_char))
compress_from_lem (c ∷ src) dst t last_char n r (dc, d) h l s = elim (eq_cases c last_char) [
  | inl same ↦
      rw (eq→== c last_char same, same, wrap n l)
        (compress_from_lem src dst t last_char (suc n) r d h
            (short_run last_char (suc n) src (omega arith) (longer same)) (longer same)
          ∙ append_assoc t (replicate (suc n) last_char) src
          ∙ ap (λ xs. t ++ xs) (sym (grown n last_char src))
          ∙ sym (append_assoc t (replicate n last_char) (last_char ∷ src)))
  | inr ne ↦ rw (ne→==_false c last_char ne) (
      compress_from_lem src (push_char_count dst last_char n) (t ++ replicate n last_char) c 1
        (read_run dst t last_char n h l r) d dc (omega arith)
        (ShortRuns-tail (replicate n last_char) (c ∷ src) s)
      ∙ append_assoc (t ++ replicate n last_char) (c ∷ []) src)
]
  where
    wrap : (n : ℕ) → n < alphabet_size → (n + 1) % u32_mod ≡ suc n
    wrap n l = omega arith

    longer : c ≡ last_char → ShortRuns (replicate (suc n) last_char ++ src)
    longer same =
        subst ShortRuns (ap (λ x. replicate n last_char ++ x ∷ src) same ∙ grown n last_char src) s

-- A text without digits in which no character stands 26 times in a row, compressed and then
-- decompressed, is the text.
pub compress_roundtrip :
    (src : List ℕ) → NoDigits src → ShortRuns src → decompress (compress src) ≡ src
unfolding compress decompress_from push_decompressed
compress_roundtrip src d s =
    compress_from_lem src [] [] 0 0 ((λ c. refl), refl) d refl (omega arith) s
