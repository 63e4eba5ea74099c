-- ===== src/Hello/Start/Count.antt =====
-- How often the hello driver was opened, over a live update.
use clipboard.Prelude.{ℕ, ◌+◌, ◌^◌, ◌<◌, List, [], ◌∷◌}
use clipboard.Sef
use clipboard.Sef.{Sef}
use clipboard.Hello.Start.{HelloRequest, open_hello, close_hello, read_hello}

-- How many of the requests open the device.
abbrev pub opens : List HelloRequest → ℕ
opens [] = 0
opens (open_hello ∷ qs) = 1 + opens qs
opens (close_hello ∷ qs) = opens qs
opens (read_hello copy_to position size ∷ qs) = opens qs

-- A size_t has 32 bits.
abbrev pub Sized : List HelloRequest → Type 0
Sized [] = Unit {0}
Sized (open_hello ∷ qs) = Sized qs
Sized (close_hello ∷ qs) = Sized qs
Sized (read_hello copy_to position size ∷ qs) = (size < 2 ^ 32) × Sized qs
