-- ===== src/Http/Path.antt =====
-- proto/proto.go: the path of a request and its parameters, the host and the status.
pub mod Title
use traffic.Base.Outcome.{Outcome, ok, panic, ◌>>=◌, at, slice}
use traffic.Base.{
  ℕ, zero, suc, ◌+◌, ◌-◌, Bool, true, false, not, List, [], ◌∷◌, ◌++◌, Option, none, some, ltb, leb,
  ◌==◌, if◌then◌else◌, length, take, drop,
}
use traffic.ByteUtils.{replace}
use traffic.Http.Header.{set_header}
use traffic.Http.Search.{Bytes, codes, index, has_prefix}
use traffic.Http.Title.{has_title, has_request_title, has_response_title}
use traffic.Payload.{index_byte}

-- `bytes.IndexByte(payload, c) + 1`
unfoldable pub behind : Bytes → ℕ → ℕ
behind s c = elim (index_byte s c) [ none ↦ 0 | some i ↦ i + 1 ]

-- `start + bytes.IndexByte(payload[start:], c)`, where -1 gives `start - 1`
unfoldable pub next_at : Bytes → ℕ → ℕ → ℕ
next_at s start c = elim (index_byte (drop start s) c) [ none ↦ start - 1 | some i ↦ start + i ]

-- a parameter's text in the path: '&' or '?', the name and '='
abbrev pub param_text : ℕ → Bytes → Bytes
param_text mark name = mark ∷ (name ++ (b'=' ∷ []))

-- where the parameter's text starts: after '&' first, then after '?'
unfoldable pub param_start : Bytes → Bytes → Option ℕ
param_start p name = elim (index p (param_text b'&' name)) [
  | some i ↦ some i
  | none ↦ index p (param_text b'?' name)
]

module _ {E : Type 0} where
  unfoldable pub path : Bytes → Outcome E Bytes
  unfolding behind next_at
  path payload =
      if not (has_request_title payload)
      then ok []
      else slice payload (behind payload b' ') (next_at payload (behind payload b' ') b' ')

  unfoldable pub set_path : Bytes → Bytes → Outcome E Bytes
  unfolding behind next_at
  set_path payload new =
      if not (has_title payload)
      then ok []
      else replace payload (behind payload b' ') (next_at payload (behind payload b' ') b' ') new

  -- the value with its bounds in the path, or `none` for the bounds -1
  unfoldable pub path_param : Bytes → Bytes → Outcome E (Option (Bytes × ℕ × ℕ))
  path_param payload name = do
    p ← path payload
    elim (param_start p name) [
      | none ↦ ok none
      | some i ↦
          let value_start = i + length name + 2 in
          let param_end : ℕ = elim (index_byte (drop value_start p) b'&') [
            | none ↦ length p
            | some e ↦ value_start + e
          ] in
          slice p value_start param_end >>= λ value. ok (some (value, value_start, param_end))
    ]

  unfoldable pub set_path_param : Bytes → Bytes → Bytes → Outcome E Bytes
  set_path_param payload name value = do
    p ← path payload
    param ← path_param payload name
    elim param [
      | some (old, value_start, value_end) ↦
          replace p value_start value_end value >>= λ new_path. set_path payload new_path
      | none ↦
          let mark : ℕ = elim (index_byte p b'?') [ none ↦ b'?' | some i ↦ b'&' ] in
          set_path payload (p ++ (param_text mark name ++ value))
    ]

  -- The position of the host is never negative here: a path that begins with "http" and holds no
  -- ':' gives `hostStart` 2, and one with no '/' behind it gives `hostStart - 1`.
  unfoldable pub set_host : Bytes → Bytes → Bytes → Outcome E Bytes
  unfolding next_at
  set_host payload url host = do
    p ← path payload
    if has_prefix p (codes "http")
        then (do
          let host_start : ℕ = elim (index_byte p b':') [ none ↦ 2 | some i ↦ i + 3 ]
          rest ← slice p host_start (length p)
          new_path ← replace p 0 (next_at p host_start b'/') url
          set_path payload new_path)
        else set_header payload (codes "Host") host

  unfoldable pub status : Bytes → Outcome E Bytes
  unfolding behind
  status payload =
      if not (has_response_title payload)
      then ok []
      else slice payload (behind payload b' ') (behind payload b' ' + 3)
