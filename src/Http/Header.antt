-- ===== src/Http/Header.antt =====
-- proto/proto.go: finding, setting, adding and deleting a header.
pub mod Edit
pub mod Line
pub mod Found
pub mod Change
pub mod Bare
use traffic.Base.Outcome.{Outcome, ok, panic, ◌>>=◌, at, slice}
use traffic.Base.{
  ℕ, zero, suc, ◌+◌, ◌-◌, Bool, true, false, List, [], ◌∷◌, ◌++◌, Option, none, some, ltb, leb,
  ◌==◌, if◌then◌else◌, length, take, drop,
}
use traffic.ByteUtils.{cut, insert, replace}
use traffic.Http.Search.{Bytes, equal_fold, crlf, header_delim, mime_headers_start_pos}
use traffic.Http.Title.{has_title}
use traffic.Payload.{index_byte}

-- The line of a header, and its value up to `value_stop`, which is `valueEnd + 1` in the source.
pub record Place : Type 0 where
  pub start : ℕ
  pub end_at : ℕ
  pub value_start : ℕ
  pub value_stop : ℕ

-- The loop over the lines from `start` on; a line is at least one byte, so the length is enough fuel.
unfoldable pub find_line : ℕ → Bytes → Bytes → ℕ → Option Place
find_line zero payload name start = none
find_line (suc fuel) payload name start = elim (index_byte (drop start payload) b'\n') [
  | none ↦ none
  | some e ↦
      let line = take e (drop start payload) in
      let end_at = start + e in
      let next = find_line fuel payload name (end_at + 1) in
      elim (index_byte line b':') [
        | none ↦ next
        | some c ↦
            if equal_fold (take c line) name
            then some (record {
              start = start;
              end_at = end_at;
              value_start = start + c + 1;
              value_stop = end_at - 1;
            })
            else next
      ]
]

module _ {E : Type 0} where
  -- `for valueStart < valueEnd`, with the rounds that are left
  unfoldable pub trim_front : ℕ → Bytes → ℕ → ℕ → Outcome E ℕ
  trim_front zero payload start stop = ok start
  trim_front (suc rounds) payload start stop = elim (ltb (start + 1) stop) [
    | false ↦ ok start
    | true ↦ at payload start >>= λ b. elim (ltb b 0x21) [
      | true ↦ trim_front rounds payload (start + 1) stop
      | false ↦ ok start
    ]
  ]

  -- `for valueEnd > valueStart`
  unfoldable pub trim_back : ℕ → Bytes → ℕ → ℕ → Outcome E ℕ
  trim_back zero payload start stop = ok stop
  trim_back (suc rounds) payload start stop = elim (ltb (start + 1) stop) [
    | false ↦ ok stop
    | true ↦ at payload (stop - 1) >>= λ b. elim (ltb b 0x21) [
      | true ↦ trim_back rounds payload start (stop - 1)
      | false ↦ ok stop
    ]
  ]

  -- the spaces around the value are left out
  unfoldable pub trim : Bytes → Place → Outcome E (Bytes × Option Place)
  trim payload p = do
    start ← trim_front (length payload) payload p.value_start p.value_stop
    stop ← trim_back (length payload) payload start p.value_stop
    value ← slice payload start stop
    ok (value, some (record p { value_start = start; value_stop = stop }))

  -- `header`; `none` stands for the four positions -1
  unfoldable pub header : Bytes → Bytes → Outcome E (Bytes × Option Place)
  header payload name =
      let start : Option ℕ = if has_title payload then mime_headers_start_pos payload else some 0 in
      elim start [
        | none ↦ ok ([], none)
        | some s ↦ elim (find_line (length payload) payload name s) [
          | none ↦ ok ([], none)
          | some p ↦ trim payload p
        ]
      ]

  unfoldable pub header_value : Bytes → Bytes → Outcome E Bytes
  header_value payload name = do (value, place) ← header payload name; ok value

  unfoldable pub add_header : Bytes → Bytes → Bytes → Outcome E Bytes
  add_header payload name value = elim (mime_headers_start_pos payload) [
    | none ↦ ok payload
    | some mime_start ↦ insert payload mime_start (name ++ (header_delim ++ (value ++ crlf)))
  ]

  unfoldable pub set_header : Bytes → Bytes → Bytes → Outcome E Bytes
  set_header payload name value = do
    (old, place) ← header payload name
    elim place [
      | none ↦ add_header payload name value
      | some p ↦ replace payload p.value_start p.value_stop value
    ]

  unfoldable pub delete_header : Bytes → Bytes → Outcome E Bytes
  delete_header payload name = do
    (old, place) ← header payload name
    elim place [ none ↦ ok payload | some p ↦ cut payload p.start (p.end_at + 1) ]
