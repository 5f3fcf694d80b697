-- ===== src/Limiter.antt =====
-- limiter.go: the limit on what passes a plugin in a second, or on its share.
use traffic.Base.Encoding.{ℤ, pos, negsuc}
use traffic.Base.{
  ℕ, ◌+◌, ◌-◌, ◌≤◌, Bool, true, false, ◌&&◌, List, [], ◌∷◌, ◌≡◌, inl, inr, arith, ltb, leb,
  if◌then◌else◌, length, Bool-cases, leb→le, Option, none, some,
}
use traffic.Base.Encoding.{All}
use Prim.Native.Nat.{min}

-- `Limiter`; `is_file` is set where the plugin is a `FileInput`. A time is in nanoseconds.
pub record Limiter : Type 0 where
  pub is_file : Bool
  pub limit : ℤ
  pub is_percent : Bool
  pub current_rps : ℕ
  pub current_time : ℕ

-- `n >= limit`
abbrev pub reaches : ℕ → ℤ → Bool
reaches n (pos limit) = leb limit n
reaches n (negsuc k) = true

-- the new second, read by the clock again
unfoldable pub renew : Limiter → ℕ → ℕ → Limiter
renew l now later =
    if ltb (l.current_time + 1000000000) now
    then record l { current_time = later; current_rps = 0 }
    else l

-- `isLimited`, with two readings of the clock and a random number below 100
unfoldable pub is_limited : Limiter → ℕ → ℕ → ℕ → Limiter × Bool
unfolding renew
is_limited l now later random =
    if l.is_file && l.is_percent
    then (l, false)
    else if l.is_percent
    then (l, reaches random l.limit)
    else let t = renew l now later in
      if reaches t.current_rps t.limit
      then (t, true)
      else (record t { current_rps = t.current_rps + 1 }, false)

-- `Write`: what the plugin's `Write` returns, or nothing written and no error
unfoldable pub write {ℓ} :
    {E : Type ℓ} → (List ℕ → ℕ × Option E) → Limiter → List ℕ → ℕ → ℕ → ℕ → Limiter × (ℕ × Option E)
write plugin l bytes now later random =
    let (t, limited) = is_limited l now later random in
    if limited then (t, (0, none)) else (t, plugin bytes)

-- `Read` of a plugin that can be read, or of one that cannot: the plugin is read, and what it gave is
-- not passed on when the limit is reached.
unfoldable pub read {ℓ} :
    {E : Type ℓ} → Option (ℕ × Option E) → Limiter → ℕ → ℕ → ℕ → Limiter × (ℕ × Option E)
unfolding is_limited
read none l now later random = (l, (0, none))
read (some given) l now later random =
    let (t, limited) = is_limited l now later random in
    if limited then (t, (0, none)) else (t, given)

-- How many of the calls at the times of a list are let through.
unfoldable pub admitted : Limiter → List ℕ → ℕ
admitted l [] = 0
admitted l (now ∷ times) =
    let (t, limited) = is_limited l now now 0 in (if limited then 0 else 1) + admitted t times

-- Of the calls within one second of the limiter's current one, exactly as many are let through as the
-- limit has left, and all of them when they are no more.
pub admitted-min :
    (limit rps start : ℕ) (times : List ℕ)
    → rps ≤ limit
    → All (λ t. t ≤ start + 1000000000) times
    → admitted
        (record {
          is_file = false;
          limit = pos limit;
          is_percent = false;
          current_rps = rps;
          current_time = start;
        })
        times
      ≡ min (limit - rps) (length times)
unfolding admitted is_limited renew
admitted-min limit rps start [] h w = omega arith
admitted-min limit rps start (now ∷ times) h w =
    let within : ltb (start + 1000000000) now ≡ false = ground (arith, w.0) in
    elim (Bool-cases (leb limit rps)) [
      | inl e ↦
          rw (within, e)
            (omega (arith, admitted-min limit rps start times h w.1, leb→le limit rps e))
      | inr e ↦
          let l : rps + 1 ≤ limit = ground arith in
          rw (within, e) (omega (arith, admitted-min limit (rps + 1) start times l w.1))
    ]
