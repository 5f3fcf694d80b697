-- ===== src/Plugins.antt =====
-- plugins.go and limiter.go: the options of a plugin, which may end in a limit.
pub mod Registry
pub mod Limits
use traffic.Base.Encoding.{ℤ}
use traffic.Base.{ℕ, Bool, true, false, [], ◌∷◌, Option, none, some, if◌then◌else◌}
use traffic.Http.Search.{Bytes}
use traffic.Limiter.{Limiter}
use traffic.Output.Names.{has_byte, atoi}
use traffic.Payload.{split}

-- `extractLimitOptions`
unfoldable pub extract_limit_options : Bytes → Bytes × Bytes
extract_limit_options options = elim (split options b'|') [
  | [] ↦ ([], [])
  | p ∷ ps ↦ elim ps [ [] ↦ (p, []) | l ∷ ls ↦ (p, l) ]
]

-- `limit, _ = strconv.Atoi(s)`; `on_error` is the value that comes with an error, 0 or the nearest int
unfoldable pub limit_of : (Bytes → ℤ) → Bytes → ℤ
unfolding atoi
limit_of on_error s = elim (atoi s) [ none ↦ on_error s | some n ↦ n ]

-- the part in front of the first separator
unfoldable pub first_part : Bytes → ℕ → Bytes
unfolding split
first_part s c = elim (split s c) [ [] ↦ [] | p ∷ ps ↦ p ]

-- `parseLimitOptions`
unfoldable pub parse_limit_options : (Bytes → ℤ) → Bytes → ℤ × Bool
unfolding limit_of first_part has_byte
parse_limit_options on_error options =
    if has_byte b'%' options
    then (limit_of on_error (first_part options b'%'), true)
    else (limit_of on_error options, false)

-- `NewLimiter`, of a plugin that is a `FileInput` or not, at a time; the speed factor that it sets, of
-- a `FileInput` with a percentage, in percent
unfoldable pub new_limiter : (Bytes → ℤ) → Bool → Bytes → ℕ → Limiter × Option ℤ
unfolding parse_limit_options
new_limiter on_error is_file options now =
    let (limit, is_percent) = parse_limit_options on_error options in
    let l : Limiter = record {
      is_file = is_file;
      limit = limit;
      is_percent = is_percent;
      current_rps = 0;
      current_time = now;
    } in
    (l, if is_file then (if is_percent then some limit else none) else none)
