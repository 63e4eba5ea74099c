-- ===== src/Tests/Library.antt =====
-- The C library.
use clipboard.Prelude.{◌%◌, ◌^◌, ◌≡◌, refl, List, [], ◌∷◌}
use clipboard.Libc.{expected_decompressed_size, decompressed_size_from, include_char}
use clipboard.Libc.Size.{Chunk, render, total, expected_decompressed_size_lem}

-- "a3b": three a's and a b.
abbrev runs : List Chunk
runs = record { char = 97; digits = 51 ∷ [] } ∷ record { char = 98; digits = [] } ∷ []

size_of_runs : expected_decompressed_size (97 ∷ 51 ∷ 98 ∷ []) ≡ 4
unfolding expected_decompressed_size decompressed_size_from include_char
size_of_runs = refl

expected_decompressed_size_lem_example :
    expected_decompressed_size (render runs) ≡ total runs % 2 ^ 32
expected_decompressed_size_lem_example =
    expected_decompressed_size_lem runs (refl, (refl, tt), (refl, tt, tt))
