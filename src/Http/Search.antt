-- ===== src/Http/Search.antt =====
-- What proto/proto.go uses of the packages bytes and strings, and its searches for line ends.
use traffic.Base.{
  ℕ, suc, ◌+◌, ◌-◌, Bool, true, false, ◌&&◌, List, [], ◌∷◌, Option, none, some, String, code, leb,
  ◌==◌, if◌then◌else◌, length, drop,
}

abbrev pub Bytes : Type 0
Bytes = List ℕ

-- the bytes of an ASCII literal
abbrev pub codes : String → Bytes
codes String.[] = []
codes (String.◌∷◌ c s) = code c ∷ codes s

-- `bytes.HasPrefix(s, prefix)`
unfoldable pub has_prefix : Bytes → Bytes → Bool
has_prefix s [] = true
has_prefix [] (p ∷ ps) = false
has_prefix (b ∷ s) (p ∷ ps) = b == p && has_prefix s ps

-- `bytes.Index(s, sep)`, with `none` for -1
unfoldable pub index : Bytes → Bytes → Option ℕ
index [] sep = if has_prefix [] sep then some 0 else none
index (b ∷ s) sep =
    if has_prefix (b ∷ s) sep
    then some 0
    else elim (index s sep) [ none ↦ none | some i ↦ some (suc i) ]

-- `bytes.HasSuffix(s, suffix)`
unfoldable pub has_suffix : Bytes → Bytes → Bool
unfolding has_prefix
has_suffix s suffix =
    leb (length suffix) (length s) && has_prefix (drop (length s - length suffix) s) suffix

unfoldable pub equal : Bytes → Bytes → Bool
equal [] [] = true
equal (x ∷ xs) (y ∷ ys) = x == y && equal xs ys
equal _ _ = false

unfoldable pub lower : ℕ → ℕ
lower c = if leb b'A' c && leb c b'Z' then c + 32 else c

-- `bytes.EqualFold`, on ASCII bytes
unfoldable pub equal_fold : Bytes → Bytes → Bool
unfolding lower
equal_fold [] [] = true
equal_fold (x ∷ xs) (y ∷ ys) = lower x == lower y && equal_fold xs ys
equal_fold _ _ = false

-- `strings.Count(s, string(c))` of one byte
unfoldable pub count : ℕ → Bytes → ℕ
count c [] = 0
count c (b ∷ s) = (if b == c then 1 else 0) + count c s

abbrev pub crlf : Bytes
crlf = b'\r' ∷ b'\n' ∷ []

abbrev pub empty_line : Bytes
empty_line = b'\r' ∷ b'\n' ∷ b'\r' ∷ b'\n' ∷ []

abbrev pub header_delim : Bytes
header_delim = b':' ∷ b' ' ∷ []

unfoldable pub mime_headers_end_pos : Bytes → Option ℕ
mime_headers_end_pos payload = elim (index payload empty_line) [
  | none ↦ none
  | some p ↦ some (p + 4)
]

unfoldable pub mime_headers_start_pos : Bytes → Option ℕ
mime_headers_start_pos payload = elim (index payload crlf) [ none ↦ none | some p ↦ some (p + 2) ]

-- `nil` and an empty slice are one list
unfoldable pub body : Bytes → Bytes
body payload = elim (mime_headers_end_pos payload) [
  | none ↦ []
  | some pos ↦ if leb (length payload) pos then [] else drop pos payload
]
