-- ===== src/FileInput.antt =====
-- input/input_file.go: reading recorded payloads back. What the buffered reader of an open file will
-- give is a list of bytes; `strconv.ParseInt` is a parameter.
pub mod Records
pub mod Order
pub mod Place
pub mod Held
pub mod Merge
use traffic.Base.Encoding.{ℤ, pos, negsuc}
use traffic.Base.Outcome.{Outcome, ok, loops, ◌>>=◌, at, slice}
use traffic.Base.{
  ℕ, zero, suc, ◌+◌, ◌-◌, Bool, true, false, not, List, [], ◌∷◌, ◌++◌, Option, none, some, ltb,
  if◌then◌else◌, length, take, drop, set,
}
use traffic.Http.Search.{Bytes, equal}
use traffic.Payload.{payload_separator, index_byte, payload_meta}

-- `fileInputReader`; `is_open` is whether `file` is not nil
pub record FileReader : Type 0 where
  pub unread : Bytes
  pub body : Bytes
  pub is_open : Bool
  pub timestamp : ℤ

-- `payloadSeparatorAsBytes[1:]`
abbrev pub marker : Bytes
marker = drop 1 payload_separator

-- `ReadBytes('\n')`: a line with its end, and what follows; bytes with no line end give an error
unfoldable pub next_line : Bytes → Option (Bytes × Bytes)
next_line s = elim (index_byte s b'\n') [
  | none ↦ none
  | some i ↦ some (take (i + 1) s, drop (i + 1) s)
]

-- the loop of `parseNext`; a line is at least one byte, so the length and 1 is enough fuel
unfoldable pub scan : ℕ → Bytes → Bytes → Option (Bytes × Bytes)
scan zero buffer unread = none
scan (suc fuel) buffer unread = elim (next_line unread) [
  | none ↦ none
  | some (line, more) ↦ elim (equal marker line) [
    | true ↦ some (buffer, more)
    | false ↦ scan fuel (buffer ++ line) more
  ]
]

module _ {E : Type 0} (parse_int : Bytes → ℤ) where
  -- `parseNext`, with whether it returns nil
  unfoldable pub parse_next : FileReader → Outcome E (FileReader × Bool)
  unfolding scan
  parse_next f = elim (scan (length f.unread + 1) [] f.unread) [
    | none ↦ ok (record f { unread = []; is_open = false }, false)
    | some (buffer, more) ↦ do
      t ← at (payload_meta buffer) 2
      d ← slice buffer 0 (length buffer - 1)
      ok (record f { unread = more; body = d; timestamp = parse_int t }, true)
  ]

  -- `ReadPayload`: the payload, and the reader at the next one
  unfoldable pub read_payload : FileReader → Outcome E (FileReader × Bytes)
  unfolding parse_next
  read_payload f = do (g, found) ← parse_next f; ok (g, f.body)

-- `<` of two ints
unfoldable pub less : ℤ → ℤ → Bool
less (pos m) (pos n) = ltb m n
less (pos m) (negsuc n) = false
less (negsuc m) (pos n) = true
less (negsuc m) (negsuc n) = ltb n m

-- the loop of `nextReader`; `none` stands for nil
unfoldable pub next_from : Option FileReader → List (Option FileReader) → Option FileReader
unfolding less
next_from best [] = best
next_from best (none ∷ rs) = next_from best rs
next_from none (some r ∷ rs) = next_from (if r.is_open then some r else none) rs
next_from (some b) (some r ∷ rs) =
    next_from (some (if r.is_open then (if less r.timestamp b.timestamp then r else b) else b)) rs

unfoldable pub next_reader : List (Option FileReader) → Option FileReader
unfolding next_from
next_reader readers = next_from none readers

-- The loop of `nextReader` with the place of the reader, which its callers change.
unfoldable pub place_from :
    ℕ → Option (ℕ × FileReader) → List (Option FileReader) → Option (ℕ × FileReader)
unfolding less
place_from n best [] = best
place_from n best (none ∷ rs) = place_from (n + 1) best rs
place_from n none (some r ∷ rs) = place_from (n + 1) (if r.is_open then some (n, r) else none) rs
place_from n (some (m, b)) (some r ∷ rs) =
    place_from (n + 1)
      (some
        (if r.is_open then (if less r.timestamp b.timestamp then (n, r) else (m, b)) else (m, b)))
      rs

module _ {E : Type 0} (parse_int : Bytes → ℤ) where
  -- `NewFileInputReader`, of the bytes that the file holds, or `none` where it cannot be opened
  unfoldable pub new_reader : Option Bytes → Outcome E (Option FileReader)
  unfolding parse_next
  new_reader none = ok none
  new_reader (some s) = do
    (f, found) ←
        parse_next {E = E} parse_int
          (record { unread = s; body = []; is_open = true; timestamp = pos 0 })
    ok (some f)

  -- the readers that `init` opens, one for each file of the pattern
  unfoldable pub open_readers : List (Option Bytes) → Outcome E (List (Option FileReader))
  unfolding new_reader
  open_readers [] = ok []
  open_readers (s ∷ ss) = do r ← new_reader s; rs ← open_readers ss; ok (r ∷ rs)

  -- `emit` without a loop over the files and without its waiting: the payloads that it hands on
  unfoldable pub emit : ℕ → List (Option FileReader) → Outcome E (List Bytes)
  unfolding place_from read_payload
  emit zero readers = loops
  emit (suc fuel) readers = elim (place_from 0 none readers) [
    | none ↦ ok []
    | some x ↦ do
      (g, payload) ← read_payload {E = E} parse_int x.1
      payloads ← emit fuel (set readers x.0 (some g))
      ok (payload ∷ payloads)
  ]
