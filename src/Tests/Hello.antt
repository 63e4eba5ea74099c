-- ===== src/Tests/Hello.antt =====
-- The hello driver.
use clipboard.Prelude.{
  ℕ, ◌≤◌, ◌<◌, ◌≡◌, ◌⊎◌, arith, none, some, List, [], ◌∷◌, take, drop, length, ℤ, pos, done,
}
use clipboard.Hello.{answer, hello_read}
use clipboard.Hello.Read.{hello_read_lem}

-- "Hi\n"
abbrev hi : List ℕ
hi = 72 ∷ 105 ∷ 10 ∷ []

abbrev takes_all : List ℕ → ℤ
takes_all bytes = pos 0

hello_read_lem_example :
    ((3 ≤ 1) × (hello_read hi takes_all 1 100 ≡ done (pos 0, none)))
    ⊎ ((1 < 3)
        × (hello_read hi takes_all 1 100
            ≡ done (
              answer (takes_all (take 100 (drop 1 hi))) (length (take 100 (drop 1 hi))),
              some (take 100 (drop 1 hi)),
            )))
hello_read_lem_example = hello_read_lem hi takes_all 1 100 (omega arith) (omega arith)
