-- ===== src/Stats.antt =====
-- stats/gor_stat.go: the counters that are reported. A value is a length, so all are natural numbers,
-- and the sum `mean * count` stays below the largest int.
use traffic.Base.Encoding.{All}
use traffic.Base.{
  ℕ, ◌+◌, ◌*◌, ◌/◌, ◌≤◌, not, List, [], ◌∷◌, ◌≡◌, refl, inl, inr, arith, ltb, ◌==◌, if◌then◌else◌,
  length, Bool-cases,
}
use native.Mathlib.Nat as Nat

pub record GorStat : Type 0 where
  pub latest : ℕ
  pub mean : ℕ
  pub max : ℕ
  pub count : ℕ

-- what `NewGorStat` starts with and `Reset` sets
abbrev pub reset : GorStat
reset = record { latest = 0; mean = 0; max = 0; count = 0 }

-- `Write`
unfoldable pub write : GorStat → ℕ → GorStat
write s latest = record {
  latest = latest;
  mean = if not (latest == 0) then (s.mean * s.count + latest) / (s.count + 1) else s.mean;
  max = if ltb s.max latest then latest else s.max;
  count = s.count + 1;
}

unfoldable pub write_all : GorStat → List ℕ → GorStat
write_all s [] = s
write_all s (x ∷ xs) = write_all (write s x) xs

div_bound : (a b m : ℕ) → a ≤ (b + 1) * m → a / (b + 1) ≤ m
div_bound a b m h = Nat.div-le_of_le-mul (b + 1) h

mean_bound : (mean count x m : ℕ) → mean ≤ m → x ≤ m → (mean * count + x) / (count + 1) ≤ m
mean_bound mean count x m h l =
    let k : mean * count ≤ m * count = Nat.mul-le-mul_right count h in
    div_bound (mean * count + x) count m (omega arith)

write_mean : (s : GorStat) (x : ℕ) → s.mean ≤ s.max → (write s x).mean ≤ (write s x).max
unfolding write
write_mean s x h = elim (Bool-cases (ltb s.max x)) [
  | inl e ↦ rw (e) (ground (arith, mean_bound s.mean s.count x x))
  | inr e ↦ rw (e) (ground (arith, mean_bound s.mean s.count x s.max))
]

write_max : (s : GorStat) (x : ℕ) → (s.max ≤ (write s x).max) × (x ≤ (write s x).max)
unfolding write
write_max s x = (ground arith, ground arith)

All-le : (a b : ℕ) (xs : List ℕ) → a ≤ b → All (λ x. x ≤ a) xs → All (λ x. x ≤ b) xs
All-le a b [] h w = tt
All-le a b (x ∷ xs) h w = let k = w.0 in (omega arith, All-le a b xs h w.1)

write_all_from :
    (s : GorStat) (xs : List ℕ)
    → s.mean ≤ s.max
    → ((write_all s xs).count ≡ s.count + length xs)
      × ((write_all s xs).mean ≤ (write_all s xs).max)
      × (s.max ≤ (write_all s xs).max)
      × All (λ x. x ≤ (write_all s xs).max) xs
unfolding write_all
write_all_from s [] h = (omega arith, h, omega arith, tt)
write_all_from s (x ∷ xs) h =
    let (count, mean, max, all) = write_all_from (write s x) xs (write_mean s x h) in
    let (kept, new) = write_max s x in
    let one : (write s x).count ≡ s.count + 1 = unfold write in refl in
    (omega (arith, count, one), mean, omega arith, (omega arith, all))

-- After any values that are written since a reset, the count is their number, and the mean is not
-- above the maximum, which none of them exceeds.
write_all_bounds :
    (xs : List ℕ)
    → ((write_all reset xs).count ≡ length xs)
      × ((write_all reset xs).mean ≤ (write_all reset xs).max)
      × All (λ x. x ≤ (write_all reset xs).max) xs
write_all_bounds xs =
    let (count, mean, max, all) = write_all_from reset xs (omega arith) in (omega arith, mean, all)
