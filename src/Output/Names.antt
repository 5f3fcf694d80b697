-- ===== src/Output/Names.antt =====
-- output/output_file.go: the names of the files, which end in a number in front of the extension; and
-- what they use of path/filepath, strings and strconv.
pub mod Ext
pub mod Number
pub mod Index
use traffic.Base.Encoding.{ℤ, pos, negsuc, decimal}
use traffic.Base.{
  ℕ, zero, suc, ◌+◌, ◌-◌, ◌*◌, ◌^◌, Bool, true, false, not, ◌&&◌, ◌||◌, List, [], ◌∷◌, ◌++◌, Option,
  none, some, ltb, leb, ◌==◌, if◌then◌else◌, length, take, drop,
}
use traffic.FileInput.{less}
use traffic.Http.Search.{Bytes, equal, has_prefix, has_suffix}

unfoldable pub has_byte : ℕ → Bytes → Bool
has_byte c [] = false
has_byte c (b ∷ s) = b == c || has_byte c s

-- `filepath.Ext`: from the last dot of the last element of a path
unfoldable pub ext : Bytes → Bytes
unfolding has_byte
ext [] = []
ext (b ∷ s) = elim (ext s) [
  | [] ↦ if b == b'.' && not (has_byte b'/' s) then b ∷ s else []
  | d ∷ e ↦ d ∷ e
]

-- `strings.TrimSuffix`
unfoldable pub trim_suffix : Bytes → Bytes → Bytes
unfolding has_suffix
trim_suffix s suffix = if has_suffix s suffix then take (length s - length suffix) s else s

-- `strings.LastIndex` of one byte, with `none` for -1
unfoldable pub last_index : Bytes → ℕ → Option ℕ
last_index [] c = none
last_index (b ∷ s) c = elim (last_index s c) [
  | some i ↦ some (suc i)
  | none ↦ if b == c then some 0 else none
]

unfoldable pub digits_value : ℕ → Bytes → Option ℕ
digits_value acc [] = some acc
digits_value acc (b ∷ s) =
    let rest = digits_value (acc * 10 + (b - b'0')) s in
    if leb b'0' b && leb b b'9' then rest else none

-- digits, at least one
unfoldable pub digits : Bytes → Option ℕ
unfolding digits_value
digits [] = none
digits (b ∷ s) = digits_value 0 (b ∷ s)

unfoldable pub positive : Option ℕ → Option ℤ
positive none = none
positive (some n) = if ltb n (2 ^ 63) then some (pos n) else none

unfoldable pub negative : Option ℕ → Option ℤ
negative none = none
negative (some n) =
    if n == 0 then some (pos 0) else if leb n (2 ^ 63) then some (negsuc (n - 1)) else none

-- `strconv.Atoi`, with `none` for an error
unfoldable pub atoi : Bytes → Option ℤ
unfolding digits positive negative
atoi [] = none
atoi (b ∷ s) =
    if b == b'-'
    then negative (digits s)
    else if b == b'+'
    then positive (digits s)
    else positive (digits (b ∷ s))

-- `getFileIndex`
unfoldable pub get_file_index : Bytes → ℤ
unfolding ext trim_suffix last_index atoi
get_file_index name =
    let without_ext = trim_suffix name (ext name) in
    elim (last_index without_ext b'_') [
      | none ↦ negsuc 0
      | some i ↦ elim (atoi (drop (i + 1) without_ext)) [ none ↦ negsuc 0 | some n ↦ n ]
    ]

-- the cut of `setFileIndex`: a name without its number
unfoldable pub without_number : Bytes → Bytes
unfolding last_index atoi
without_number s = elim (last_index s b'_') [
  | none ↦ s
  | some i ↦ elim (atoi (drop (i + 1) s)) [ none ↦ s | some n ↦ take i s ]
]

-- `setFileIndex`
unfoldable pub set_file_index : Bytes → ℤ → Bytes
unfolding ext trim_suffix without_number
set_file_index name i =
    without_number (trim_suffix name (ext name)) ++ (b'_' ∷ (decimal i ++ ext name))

-- `withoutIndex`
unfoldable pub without_index : Bytes → Bytes
unfolding last_index
without_index s = elim (last_index s b'_') [ none ↦ s | some i ↦ take i s ]

-- `<` of strings
unfoldable pub less_bytes : Bytes → Bytes → Bool
less_bytes s [] = false
less_bytes [] (c ∷ t) = true
less_bytes (b ∷ s) (c ∷ t) = let rest = less_bytes s t in if b == c then rest else ltb b c

-- `Less`
unfoldable pub less_file : Bytes → Bytes → Bool
unfolding without_index get_file_index less_bytes
less_file s t =
    if equal (without_index s) (without_index t)
    then less (get_file_index s) (get_file_index t)
    else less_bytes s t
