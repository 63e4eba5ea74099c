-- ===== src/Tests/Parts.antt =====
-- The stack of free slots and the protocol.
use clipboard.Prelude.{ℕ, ◌+◌, ◌≡◌, ◌⊎◌, true, false, [], ◌∷◌, arith, done, Returns}
use clipboard.Stack
use clipboard.Stack.{Stack, stack_size}
use clipboard.Stack.Refine.{IsValid, contents, bounded_push, push_refines, take_refines}
use clipboard.Protocol.{is_pid_query, is_correct_id, encode_id, decode_id, encode_pid, decode_pid}
use clipboard.Protocol.Codec.{query_roundtrip}

abbrev one_free : Stack
one_free = record { value = λ k. k + 5; current = 1 }

push_refines_example :
    Returns (Stack.push 8 one_free) λ t. IsValid t × (contents t ≡ bounded_push 8 (5 ∷ []))
push_refines_example = push_refines 8 one_free (omega arith)

take_refines_example :
    ((Stack.is_empty one_free ≡ true) × (contents one_free ≡ []))
    ⊎ ((x : ℕ) × (t : Stack) × (Stack.is_empty one_free ≡ false)
        × (Stack.top one_free ≡ done x)
        × (Stack.pop one_free ≡ done t)
        × IsValid t
        × (contents one_free ≡ x ∷ contents t))
take_refines_example = take_refines one_free (omega arith)

query_roundtrip_example :
    (is_pid_query (encode_id 3) ≡ true)
    × (is_correct_id (encode_id 3) ≡ true)
    × (decode_id (encode_id 3) ≡ 3)
    × (is_pid_query (encode_pid 42) ≡ false)
    × (decode_pid (encode_pid 42) ≡ 42)
query_roundtrip_example = query_roundtrip 3 42 (omega arith) (omega arith)
