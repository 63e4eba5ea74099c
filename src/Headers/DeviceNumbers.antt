-- ===== src/Headers/DeviceNumbers.antt =====
-- The numbers of devices in the four copies of minix/dmap.h.
use Prim.Native.String.{String}
use clipboard.Prelude.{
  ℕ, zero, suc, ◌<◌, ◌≡◌, refl, ◌≢◌, ◌⊎◌, arith, Bool, true, not, ◌&&◌, ◌||◌, ◌==◌, ltb, some, List,
  ◌++◌,
}
use clipboard.Headers.{value_of, ctrlr}
use clipboard.Headers.Devices.{majors, minors, usb_base_major}
use clipboard.Headers.DevicesInstalled.{installed_majors, installed_minors}
use clipboard.Headers.DevicesBefore.{old_majors, old_minors}
use clipboard.Headers.DevicesInstalledBefore.{old_installed_majors, old_installed_minors}
use clipboard.Headers.Lookup.{all_values, distinct, all_values_sound, distinct_sound}

abbrev pub devices : List (String × ℕ)
devices = majors ++ minors

abbrev pub installed_devices : List (String × ℕ)
installed_devices = installed_majors ++ installed_minors

abbrev pub old_devices : List (String × ℕ)
old_devices = old_majors ++ old_minors

abbrev pub old_installed_devices : List (String × ℕ)
old_installed_devices = old_installed_majors ++ old_installed_minors

-- The major that the patch gives to the clipboard.
abbrev pub clipboard_major : ℕ
clipboard_major = 65

majors_differ : distinct majors ≡ true
unfolding distinct all_values majors
majors_differ = refl

-- Not a major of USB, nor of a vnd (56-63), nor of one of the disk controllers c0 to c3.
abbrev is_clear : ℕ → Bool
is_clear v =
    ltb v usb_base_major
    && (ltb v 56 || ltb 63 v)
    && (not (v == ctrlr 0) && not (v == ctrlr 1) && not (v == ctrlr 2) && not (v == ctrlr 3))

clear_range :
    (v : ℕ)
    → is_clear v ≡ true
    → (v < usb_base_major)
      × ((v < 56) ⊎ (63 < v))
      × (v ≢ ctrlr 0)
      × (v ≢ ctrlr 1)
      × (v ≢ ctrlr 2)
      × (v ≢ ctrlr 3)
clear_range v h = ground arith

majors_clear : all_values is_clear majors ≡ true
unfolding all_values majors
majors_clear = refl

-- After the patch no two drivers have the same major; none is a major of USB, of a vnd (56 to 63) or of
-- one of the four disk controllers.
pub majors_distinct :
    (a b : String) (n : ℕ)
    → value_of majors a ≡ some n
    → (value_of majors b ≡ some n → a ≡ b)
      × (n < usb_base_major)
      × ((n < 56) ⊎ (63 < n))
      × ((i : ℕ) → i < 4 → n ≢ ctrlr i)
majors_distinct a b n e =
    let (usb, vnd, zero_ne, one_ne, two_ne, three_ne) =
      clear_range n (all_values_sound is_clear majors a n majors_clear e) in
    (
      distinct_sound majors a b n majors_differ e,
      usb,
      vnd,
      λ i h. no_controller i h zero_ne one_ne two_ne three_ne,
    )
  where
    no_controller :
        (i : ℕ) → i < 4 → n ≢ ctrlr 0 → n ≢ ctrlr 1 → n ≢ ctrlr 2 → n ≢ ctrlr 3 → n ≢ ctrlr i
    no_controller zero h p q r s = p
    no_controller (suc zero) h p q r s = q
    no_controller (suc (suc zero)) h p q r s = r
    no_controller (suc (suc (suc zero))) h p q r s = s
    no_controller (suc (suc (suc (suc i)))) h p q r s = absurd (omega arith)
