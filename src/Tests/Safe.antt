-- ===== src/Tests/Safe.antt =====
-- A safe copy.
use clipboard.Prelude.{
  ℕ, ◌+◌, ◌≡◌, refl, arith, List, [], take, length, replicate, pos, to_int, to_uint, done,
  done_injective, Returns, ap, sym, ◌∙◌,
}
use clipboard.Protocol.{SetMsg}
use clipboard.Protocol.Codec.{SetFits}
use clipboard.Clipboard.Fill.{IsSound}
use clipboard.Compress.{decompress}
use clipboard.Compress.Roundtrip.{ShortRuns}
use clipboard.Cipher.{mode_cipher, mode_decipher, cipher}
use clipboard.Cipher.Roundtrip.{cipher_roundtrip}
use clipboard.Libc.{Os}
use clipboard.Safe.{copy_safely}
use clipboard.Safe.Copy.{copy_safely_lem}
use clipboard.Tests.Text.{short_text, zoo, key_b25, key_b25-IsKey, zoo-AreLetters}

-- A device that gives the number 99 to each text.
abbrev device : Os ℕ
device = record {
  open_clipboard = λ a w. (pos 3, w + 1);
  read = λ fd n w. (pos 0, [], w + 1);
  write = λ fd bytes w. (pos 99, w + 1);
  close = λ fd w. (pos 0, w + 1);
  getpid = λ w. 7;
  syscall = λ n p q w. (pos 1, w + 1);
}

abbrev junk : List ℕ
junk = replicate 1024 170

pub short_zoo : (tmp : List ℕ) → cipher mode_cipher zoo key_b25 ≡ done (0, tmp) → ShortRuns tmp
short_zoo tmp e =
    let (x, e', (code, letters, len, back)) =
      cipher_roundtrip key_b25 zoo key_b25-IsKey (omega arith) (omega arith) zoo-AreLetters in
    let same : length x.1 ≡ length tmp =
      ap (λ (y : ℕ × List ℕ). length y.1) (done_injective (sym e' ∙ e)) in
    short_text tmp (omega (arith, same, len))

copy_safely_lem_example : Returns (copy_safely device junk zoo key_b25 0) λ x.
    (m : SetMsg) × SetFits m
    × IsSound m
    × (x.0 ≡ to_int (to_uint (pos 99)))
    × (m.decompressed_len ≡ length zoo)
    × (x.1 ≡ m.buffer_len)
    × (cipher mode_decipher (decompress (take m.buffer_len m.buffer)) key_b25 ≡ done (0, zoo))
copy_safely_lem_example =
    copy_safely_lem device junk 0 key_b25 zoo key_b25-IsKey (omega arith) (omega arith)
      zoo-AreLetters (omega arith) short_zoo refl refl (omega arith)
