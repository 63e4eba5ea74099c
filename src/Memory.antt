-- ===== src/Memory.antt =====
-- malloc, free and memcpy as the driver uses them. The allocator is the C library's, so where a
-- block is placed is a parameter; a live block is the list of its bytes.
pub mod Laws
use clipboard.Prelude.{
  ℕ, ◌+◌, ◌≤◌, ◌≡◌, Bool, true, false, ◌&&◌, Option, none, some, List, ◌++◌, take, drop, length,
  replicate, leb, Run, done, undefined, ◌>>=◌, ◌>>◌, defined_if, update, if◌then◌else◌,
}

abbrev pub Heap : Type 0
Heap = ℕ → Option (List ℕ)

abbrev pub no_blocks : Heap
no_blocks p = none

-- Where malloc puts a block of n bytes (`none` is a null pointer): never over a live block.
pub record Allocator : Type 0 where
  pub place : Heap → ℕ → Option ℕ
  pub fresh : (h : Heap) (n p : ℕ) → place h n ≡ some p → h p ≡ none

-- The bytes of a new block are indeterminate; the program overwrites all of them.
unfoldable pub malloc : Allocator → ℕ → Heap → Option (ℕ × Heap)
malloc a n h = elim (a.place h n) [
  | none ↦ none
  | some p ↦ some (p, update h p (some (replicate n 0)))
]

-- Freeing what is no live block is undefined.
unfoldable pub free : ℕ → Heap → Run Heap
free p h = elim (h p) [ none ↦ undefined | some b ↦ done (update h p none) ]

-- Reading the block at a pointer that is null or dangling is undefined.
unfoldable pub block_at : ℕ → Heap → Run (List ℕ)
block_at p h = elim (h p) [ none ↦ undefined | some b ↦ done b ]

-- memcpy(dst, src, n), as the new bytes of dst.
unfoldable pub memcpy : List ℕ → List ℕ → ℕ → Run (List ℕ)
memcpy dst src n = do
  defined_if (leb n (length src) && leb n (length dst))
  done (take n src ++ drop n dst)
