-- ===== src/Tests/Family.antt =====
-- The C library, the driver and the process manager together.
use clipboard.Prelude.{
  sym, done_injective, ℕ, zero, suc, ◌≡◌, refl, inl, inr, ◌⊎◌, arith, done, Returns, ℤ, pos,
  minus_one, to_uint, some, ◌++◌, drop,
}
use clipboard.Clipboard.Invariant.{IsValid}
use clipboard.Pm.{do_checkifancestor}
use clipboard.Pm.Ancestor.{do_checkifancestor_lem}
use clipboard.Pm.Climb.{Ancestor}
use clipboard.Pm.Fuel.{do_checkifancestor_agree}
use clipboard.Libc.{
  expected_decompressed_size, decompressed_size_from, include_char, paste_from_clipboard,
  check_if_ancestor,
}
use clipboard.Session.Family.{
  Manager, Family, check_if_ancestor_lem, descendant_pastes, stranger_refused,
}
use clipboard.Tests.Machine.{two_places, fresh-IsValid, used_state, text_abc}
use clipboard.Tests.Processes.{family, result, family-IsTable}
use clipboard.Tests.Session.{
  World, machine, driver, abc_item, before, after_copy, next_reader, junk, ten, copied_99,
  not_refused,
}

pub result_is :
    (p q fuel : ℕ) (r : ℤ)
    → do_checkifancestor 3 1 fuel family p q ≡ some (done r)
    → result (do_checkifancestor 3 1 3 family p q) ≡ r
result_is p q fuel r runs =
    elim (do_checkifancestor_lem 3 1 3 family p q family-IsTable (omega arith)) [
      | inl (_, e) ↦ rw e (
          sym (
            done_injective
              (do_checkifancestor_agree 3 1 fuel 3 family p q (done r) (done (pos 1)) runs e)))
      | inr (_, e) ↦ rw e (
          sym (
            done_injective
              (do_checkifancestor_agree 3 1 fuel 3 family p q (done r) (done (pos 0)) runs e)))
    ]

abbrev pub manager : Manager machine
manager = record {
  nr_procs = 3;
  in_use = 1;
  mproc = λ w. family;
  call_reaches = λ n p q fuel w r routed runs positive. result_is p q fuel r runs;
}

check_if_ancestor_lem_example :
    (Family machine manager 7 9 next_reader × ((check_if_ancestor machine 7 9 next_reader).0 ≡ 1))
    ⊎ ((¬ Family machine manager 7 9 next_reader)
        × ((check_if_ancestor machine 7 9 next_reader).0 ≡ 0))
check_if_ancestor_lem_example = check_if_ancestor_lem machine manager 7 9 next_reader family-IsTable

-- Process 9 is a child of 7.
pub child : (w : World) → Family machine manager 7 9 w
child w = inr (2, omega arith, refl, refl, Ancestor.direct refl)

descendant_pastes_example :
    Returns
      (paste_from_clipboard machine 99 ten 10 next_reader)
      λ y. (y.0 ≡ 0) × (y.1 ≡ text_abc ++ drop 3 ten) × IsValid y.2.clip
unfolding expected_decompressed_size decompressed_size_from include_char
descendant_pastes_example =
    descendant_pastes machine manager two_places driver junk text_abc 1 99 before after_copy
      next_reader ten 10 refl refl (omega arith) (omega arith) fresh-IsValid refl copied_99
      not_refused (omega arith) refl refl (omega arith) (omega arith) family-IsTable
      (child next_reader) (omega arith) (omega arith)

abbrev stranger : World
stranger = record { clip = used_state; pid = 5 }

no_kin : (w : World) → ¬ Family machine manager 7 5 w
no_kin w (inl same) = omega arith
no_kin w (inr (zero, h, act, pid, a)) = omega arith
no_kin w (inr (suc zero, h, act, pid, a)) = omega arith
no_kin w (inr (suc (suc i), h, act, pid, a)) = omega arith

stranger_refused_example :
    Returns
      (paste_from_clipboard machine 99 ten 10 stranger)
      λ x. (x.0 ≡ to_uint minus_one) × (x.1 ≡ ten) × (x.2.clip ≡ used_state)
stranger_refused_example =
    stranger_refused machine manager two_places driver 99 abc_item ten 10 stranger (omega arith)
      (omega arith) (omega arith) refl family-IsTable (no_kin stranger)
