-- ===== src/Cipher.antt =====
-- The cipher of compress.c of test, with its key. A char is signed, as on x86, and kept as its pattern
-- of 8 bits.
pub mod Key
pub mod Roundtrip
use clipboard.Prelude.{
  ℕ, ◌+◌, ◌-◌, ◌*◌, ◌%◌, ◌≡◌, Bool, true, false, ◌==◌, ltb, if◌then◌else◌, List, [], ◌∷◌, ◌++◌,
  length, elem_or, u32_mod, Run, done, ◌>>=◌, ◌>>◌, defined_if,
}
use clipboard.Compress.{alphabet_size, isdigit, islower, isupper, push_char}

-- MAX_SIZE
abbrev pub max_size : ℕ
max_size = 1024

pub data Mode : Type 0 where
  mode_cipher mode_decipher : Mode

-- The flag is reset too: the callers go on with `false`.
unfoldable pub finish_push_number : List ℕ → ℕ → Bool → List ℕ
finish_push_number res value parsing = if parsing then push_char res value else res

-- What a letter stands for; of another character, its distance from 'A' in 8 bits.
abbrev pub letter_value : ℕ → ℕ
letter_value c = if islower c then (c + 256 - 97) % 256 else (c + 256 - 65) % 256

-- The loop over what is left of the key, and the call behind it. The result stands over the key, no
-- further than what was read.
unfoldable pub normalize_from : List ℕ → List ℕ → ℕ → Bool → List ℕ
normalize_from [] res count parsing = finish_push_number res count parsing
normalize_from (c ∷ key) res count parsing =
    let digit =
      normalize_from key res (((if parsing then 10 * count else 0) + c - 48) % alphabet_size)
        true in
    let letter =
      normalize_from key (push_char (finish_push_number res count parsing) (letter_value c)) count
        false in
    if isdigit c then digit else letter

unfoldable pub normalize_key : List ℕ → List ℕ
normalize_key key = normalize_from key [] 0 false

unfoldable pub char_base : ℕ → ℕ
char_base c = if isdigit c then 48 else if islower c then 97 else if isupper c then 65 else 0

-- `%=` on a char: the remainder has the sign of the char.
unfoldable pub rem_alphabet : ℕ → ℕ
rem_alphabet b = if ltb b 128 then b % alphabet_size else (256 - (256 - b) % alphabet_size) % 256

abbrev pub moved_by : Mode → ℕ → ℕ → ℕ
moved_by mode_cipher k x = (x + k) % 256
moved_by mode_decipher k x = (x + (alphabet_size + 256 - k)) % 256

-- The body of the loop of `cipher`, behind the call of `char_base`.
unfoldable pub shift_char : Mode → ℕ → ℕ → ℕ → ℕ
shift_char mode base k c = (rem_alphabet (moved_by mode k ((c + 256 - base) % 256)) + base) % 256

-- The loop over what is left of the buffer. An empty key has no remainder to take.
unfoldable pub cipher_from : Mode → List ℕ → ℕ → List ℕ → Run (List ℕ)
cipher_from mode norm_key k [] = done []
cipher_from mode norm_key k (c ∷ buffer) = do
  defined_if (ltb k (length norm_key))
  rest ← cipher_from mode norm_key ((k + 1) % length norm_key) buffer
  done (shift_char mode (char_base c) (elem_or norm_key k) c ∷ rest)

-- The code, and the new contents of the buffer.
unfoldable pub cipher : Mode → List ℕ → List ℕ → Run (ℕ × List ℕ)
cipher mode buffer key =
    if ltb max_size (length key)
    then done (u32_mod - 1, buffer)
    else (do out ← cipher_from mode (normalize_key key) 0 buffer; done (0, out))
