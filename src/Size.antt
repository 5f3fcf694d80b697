-- ===== src/Size.antt =====
-- size/size.go: sizes with a unit, of ASCII text; and the units of output/output_file.go.
-- `strconv.ParseInt` is a parameter: the value, and whether there is an error.
use traffic.Base.Encoding.{ℤ}
use traffic.Base.Outcome.{Outcome, ok, panic}
use traffic.Base.{
  ℕ, ◌*◌, ◌-◌, ◌%◌, ◌^◌, Bool, true, not, ◌&&◌, ◌||◌, [], ◌∷◌, Option, none, some, leb, ◌==◌,
  if◌then◌else◌, length, take, drop,
}
use traffic.Http.Search.{Bytes, codes, equal_fold, has_suffix, lower}
use traffic.Input.{to_word, from_word}

-- `[\da-f_]` without regard to case
unfoldable pub is_digit : ℕ → Bool
unfolding lower
is_digit c = (leb b'0' c && leb c b'9') || (leb b'a' (lower c) && leb (lower c) b'f') || c == b'_'

unfoldable pub all_digits : Bytes → Bool
unfolding is_digit
all_digits [] = true
all_digits (c ∷ s) = is_digit c && all_digits s

-- `[\da-f_]+`
unfoldable pub some_digits : Bytes → Bool
unfolding all_digits
some_digits s = not (length s == 0) && all_digits s

-- `0b`, `0x` or `0o` without regard to case
unfoldable pub is_base : Bytes → Bool
unfolding equal_fold
is_base s = equal_fold s (codes "0b") || equal_fold s (codes "0x") || equal_fold s (codes "0o")

-- `rB`: an optional base, and digits
unfoldable pub is_number : Bytes → Bool
unfolding some_digits is_base
is_number s = some_digits s || (is_base (take 2 s) && some_digits (drop 2 s))

-- `rKB` and the others: a number in front of a unit of two letters
unfoldable pub has_unit : Bytes → Bytes → Bool
unfolding is_number
has_unit unit s =
    leb 2 (length s) && equal_fold (drop (length s - 2) s) unit && is_number (take (length s - 2) s)

-- `*` of int64
unfoldable pub mul64 : ℤ → ℕ → ℤ
unfolding to_word from_word
mul64 a n = from_word (to_word a * n % 2 ^ 64)

-- What `Set` fails with: the error of `ParseInt`, or that there is no such form.
pub data SizeError : Type 0 where
  not_a_number no_size : SizeError

module _ (parse_int : Bytes → ℤ × Bool) where
  unfoldable pub parsed : Bytes → ℕ → ℤ × Option SizeError
  unfolding mul64
  parsed s unit =
      let (n, failed) = parse_int s in (mul64 n unit, if failed then some not_a_number else none)

  -- the `switch` of `Set`, with `none` for its default
  unfoldable pub size_of : Bytes → Option (ℤ × Option SizeError)
  unfolding is_number has_unit parsed
  size_of s =
      let number = take (length s - 2) s in
      if is_number s
      then some (parsed s 1)
      else if has_unit (codes "kb") s
      then some (parsed number (2 ^ 10))
      else if has_unit (codes "mb") s
      then some (parsed number (2 ^ 20))
      else if has_unit (codes "gb") s
      then some (parsed number (2 ^ 30))
      else if has_unit (codes "tb") s
      then some (parsed number (2 ^ 40))
      else none

  -- `Set`: the size that is kept, which is also set where the number is not one, and the error
  unfoldable pub set_size : ℤ → Bytes → ℤ × Option SizeError
  unfolding size_of
  set_size siz [] = (siz, none)
  set_size siz (c ∷ s) = elim (size_of (c ∷ s)) [ none ↦ (siz, some no_size) | some x ↦ x ]

  -- `dataUnitMap`
  unfoldable pub data_unit : ℕ → Option ℕ
  data_unit c =
      if c == b'k'
      then some 1024
      else if c == b'm'
      then some (1024 * 1024)
      else if c == b'g'
      then some (1024 * 1024 * 1024)
      else none

  unfoldable pub get_last : ℕ → Bytes → ℕ
  get_last c [] = c
  get_last c (d ∷ s) = get_last d s

  -- `parseDataUnit` behind the removal of the `b`
  unfoldable pub data_size : {E : Type 0} → Bytes → Outcome E ℤ
  unfolding data_unit get_last mul64
  data_size [] = panic
  data_size (c ∷ s) = elim (data_unit (get_last c s)) [
    | some unit ↦ ok (mul64 (parse_int (take (length s) (c ∷ s))).0 unit)
    | none ↦ ok (parse_int (c ∷ s)).0
  ]

  -- `parseDataUnit`
  unfoldable pub parse_data_unit : {E : Type 0} → Bytes → Outcome E ℤ
  unfolding data_size has_suffix
  parse_data_unit s =
      if has_suffix s (codes "b") then data_size (take (length s - 1) s) else data_size s
