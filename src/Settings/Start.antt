-- ===== src/Settings/Start.antt =====
-- settings.go: what the check of the settings leaves.
use traffic.Base.Encoding.{ℤ, pos}
use traffic.Base.Outcome.{ok}
use traffic.Base.{if◌then◌else◌, Bool, false, ◌≡◌, refl, inl, inr, Bool-cases}
use traffic.FileInput.{less}
use traffic.Http.Search.{Bytes, codes}
use traffic.Input.{to_word, from_word}
use traffic.Settings.{AppSettings, check_settings}
use traffic.Size.{mul64}

-- The sizes of the settings are at least a byte.
pub record HasSizes (s : AppSettings) : Type 0 where
  pub limit : less s.size_limit (pos 1) ≡ false
  pub buffer : less s.copy_buffer_size (pos 1) ≡ false

module _ (parse_int parse_int_any_base : Bytes → ℤ × Bool)
    (reads_32 : parse_int (codes "32") ≡ (pos 32, false))
    (reads_5 : parse_int_any_base (codes "5") ≡ (pos 5, false)) where
  mul_32 : mul64 (parse_int (codes "32")).0 1048576 ≡ pos 33554432
  unfolding mul64 to_word from_word
  mul_32 = rw reads_32 refl

  mul_5 : mul64 (parse_int_any_base (codes "5")).0 1048576 ≡ pos 5242880
  unfolding mul64 to_word from_word
  mul_5 = rw reads_5 refl

  -- Whatever sizes the flags gave, the check of the settings returns: a limit below a byte is 32 MiB then, a
  -- buffer below a byte 5 MiB, so that both are at least a byte, and all else is as it was; the numbers of
  -- these sizes are taken to be parsed.
  pub check_settings-HasSizes :
      {E : Type 0} (s : AppSettings)
      → let t = record s {
        size_limit = if less s.size_limit (pos 1) then pos 33554432 else s.size_limit;
        copy_buffer_size =
            if less s.copy_buffer_size (pos 1) then pos 5242880 else s.copy_buffer_size;
      } in
        (check_settings parse_int parse_int_any_base {E = E} s ≡ ok t) × HasSizes t
  unfolding check_settings less
  check_settings-HasSizes {E = E} s = elim (Bool-cases (less s.size_limit (pos 1))) [
    | inl a ↦ elim (Bool-cases (less s.copy_buffer_size (pos 1))) [
      | inl b ↦ rw (a, b) (rw (mul_32, mul_5) refl, record { limit = refl; buffer = refl })
      | inr b ↦ rw (a, b) (rw mul_32 refl, record { limit = refl; buffer = b })
    ]
    | inr a ↦ elim (Bool-cases (less s.copy_buffer_size (pos 1))) [
      | inl b ↦ rw (a, b) (rw mul_5 refl, record { limit = a; buffer = refl })
      | inr b ↦ rw (a, b) (refl, record { limit = a; buffer = b })
    ]
  ]
