-- ===== src/Safe.antt =====
-- copy_safely and paste_safely of test/compress.c: a client's text is ciphered, compressed and
-- copied, and the way back.
pub mod Copy
pub mod Zeros
pub mod Paste
pub mod Whole
pub mod Family
use clipboard.Prelude.{
  zero, suc, not, leb, ◌==◌, [], ◌∷◌, ◌++◌, take, drop, replicate, undefined, defined_if, ◌>>◌, ℕ,
  ◌≡◌, ltb, if◌then◌else◌, List, length, ℤ, minus_one, to_int, Run, done, ◌>>=◌,
}
use clipboard.Compress.{decompress}
use clipboard.Compress.Place.{compress_at}
use clipboard.Cipher.{max_size, mode_cipher, mode_decipher, cipher}
use clipboard.Libc.{Os, copy_to_clipboard, paste_from_clipboard}

-- The code of `cipher` is dropped. The results are the code and the new `*buffer_len`.
unfoldable pub copy_safely : {W : Type 0} → Os W → List ℕ → List ℕ → List ℕ → W → Run (ℤ × ℕ × W)
copy_safely os junk buffer key w =
    if ltb max_size (length buffer) then done (minus_one, length buffer, w) else (do
      (_, tmp) ← cipher mode_cipher buffer key
      let (tmp1, compressed_size) = compress_at tmp (length tmp)
      (res, w') ← copy_to_clipboard os junk tmp1 compressed_size w
      done (to_int res, compressed_size, w'))

-- `bound` rounds are left: the number of characters before the first zero, at most `bound`.
unfoldable pub slen : List ℕ → ℕ → Run ℕ
slen s zero = done 0
slen [] (suc bound) = undefined
slen (c ∷ s) (suc bound) =
    let rest = slen s bound in if c == 0 then done 0 else (do i ← rest; done (suc i))

unfoldable pub fmemset : List ℕ → ℕ → ℕ → Run (List ℕ)
fmemset name value len = do
  defined_if (leb len (length name))
  done (replicate len value ++ drop len name)

-- `tmp` is what the local holds before it is written, and `address` where the local buffer_len_tmp is:
-- paste_from_clipboard takes a length there. The results are the code and the caller's buffer.
unfoldable pub paste_safely :
    {W : Type 0} → Os W → ℕ → List ℕ → ℕ → List ℕ → ℕ → List ℕ → W → Run (ℕ × List ℕ × W)
paste_safely os address tmp id buffer buffer_len key w = do
  (res, tmp1, w1) ← paste_from_clipboard os id tmp address w
  if not (res == 0) then done (res, buffer, w1) else (do
    compressed_len ← slen tmp1 buffer_len
    cleared ← fmemset buffer 0 buffer_len
    let text = decompress (take compressed_len tmp1)
    defined_if (leb (length text) (length cleared))
    let written = text ++ drop (length text) cleared
    decompressed_len ← slen written buffer_len
    (_, out) ← cipher mode_decipher (take decompressed_len written) key
    done (res, out ++ drop decompressed_len written, w1))
