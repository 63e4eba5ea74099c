-- ===== src/Memory/Laws.antt =====
-- malloc, free and memcpy where they are defined.
use clipboard.Prelude.{
  ℕ, ◌≤◌, ◌≡◌, none, some, List, ◌++◌, take, drop, length, replicate, le→leb, done, update,
  take_whole, drop_all, append-nil, arith,
}
use clipboard.Memory.{Heap, Allocator, malloc, free, block_at, memcpy}

pub malloc_placed :
    (a : Allocator) (n p : ℕ) (h : Heap)
    → a.place h n ≡ some p
    → malloc a n h ≡ some (p, update h p (some (replicate n 0)))
unfolding malloc
malloc_placed a n p h e = rw (e, malloc)

pub free_live : (p : ℕ) (h : Heap) (b : List ℕ) → h p ≡ some b → free p h ≡ done (update h p none)
unfolding free
free_live p h b e = rw (e, free)

pub block_at_live : (p : ℕ) (h : Heap) (b : List ℕ) → h p ≡ some b → block_at p h ≡ done b
unfolding block_at
block_at_live p h b e = rw (e, block_at)

pub memcpy_fits :
    (dst src : List ℕ) (n : ℕ)
    → n ≤ length src
    → n ≤ length dst
    → memcpy dst src n ≡ done (take n src ++ drop n dst)
unfolding memcpy
memcpy_fits dst src n h k = rw (le→leb n (length src) h, le→leb n (length dst) k)

-- The whole source.
pub memcpy_source :
    (dst src : List ℕ) (n : ℕ)
    → length src ≡ n
    → n ≤ length dst
    → memcpy dst src n ≡ done (src ++ drop n dst)
memcpy_source dst src n e k =
    rw (memcpy_fits dst src n (omega arith) k, take_whole n src (omega arith))

-- The whole destination.
pub memcpy_over :
    (dst src : List ℕ) (n : ℕ)
    → n ≤ length src
    → length dst ≡ n
    → memcpy dst src n ≡ done (take n src)
memcpy_over dst src n h e =
    rw
      (memcpy_fits dst src n h (omega arith), drop_all n dst (omega arith), append-nil (take n src))
