-- ===== src/ByteUtils/Splice.antt =====
-- byteutils/byteutils.go: every operation is a splice, of what stands before and behind the range.
use Prim.Native.Nat.{min}
use mathlib.Core.Path.{subst₂}
use native.Mathlib.Decide.{dec_lt}
use native.Mathlib.Nat.{le_refl}
use traffic.Base.Outcome.{ok, ◌>>=◌, slice, slice-take, slice-append}
use traffic.Base.{
  ℕ, ◌+◌, ◌-◌, ◌≤◌, ◌<◌, [], ◌∷◌, ◌++◌, append_assoc, append-nil, ◌≡◌, refl, ◌∙◌, ap, sym, arith,
  le→leb, length, take, drop, replicate, length-append, length-take, length-drop, length-replicate,
  take-length-append, drop-length-append, drop-append_ge, drop-append_le, take-append-drop,
  take-append_ge, take_all, lt→ltb, not_ltb,
}
use traffic.ByteUtils.{Bytes, copy_range, cut, insert, replace}

-- A copy that fits is written over the front of what stands behind `x`.
copy_range-append :
    {E : Type 0} (x t s : Bytes) (j : ℕ)
    → length x + length s ≤ j
    → j ≤ length (x ++ t)
    → copy_range {E = E} (x ++ t) (length x) j s ≡ ok (x ++ (s ++ drop (length s) t))
unfolding copy_range
copy_range-append x t s j h k =
    let n : min (j - length x) (length s) ≡ length s = omega arith in
    rw (le→leb (length x) j (omega arith), le→leb j (length (x ++ t)) k, n)
      (rw (take-length-append x t, drop-append_ge, take_all (length s) s (le_refl _)) refl)

drop_end : (t : Bytes) → drop (length t) t ≡ []
drop_end [] = refl
drop_end (c ∷ t) = drop_end t

-- A copy that is too long is cut off where its target ends.
copy_range_long :
    {E : Type 0} (x t s u : Bytes)
    → length s ≡ length t
    → copy_range {E = E} (x ++ t) (length x) (length (x ++ t)) (s ++ u) ≡ ok (x ++ s)
unfolding copy_range
copy_range_long x t s u h =
    let l = length-append x t in
    let l' = length-append s u in
    let n : min (length (x ++ t) - length x) (length (s ++ u)) ≡ length s = omega arith in
    rw
      (
        le→leb (length x) (length (x ++ t)) (omega arith),
        le→leb (length (x ++ t)) (length (x ++ t)) (le_refl _),
        n,
      )
      (rw
        (take-length-append x t, drop-append_ge, take-length-append s u, h, drop_end t, append-nil))

shift_by :
    {E : Type 0} (x p t z u new : Bytes)
    → length p ≡ length new
    → length z ≡ length t
    → (copy_range {E = E} ((x ++ p) ++ t) (length (x ++ p)) (length ((x ++ p) ++ t)) (z ++ u)
        >>= λ d. copy_range d (length x) (length x + length new) new)
      ≡ ok (x ++ (new ++ z))
shift_by {E} x p t z u new hp hz =
    let l = length-append x (p ++ z) in
    let l' = length-append p z in
    rw (copy_range_long {E = E} (x ++ p) t z u hz, append_assoc x p z)
      (copy_range-append x (p ++ z) new (length x + length new) (le_refl _) (omega arith)
        ∙ rw (← hp, drop-length-append))

-- Room for `new` is made behind `x`, and it is written there.
shift_right :
    {E : Type 0} (x w z u new : Bytes)
    → length w ≡ length new + length z
    → (copy_range {E = E} (x ++ w) (length x + length new) (length (x ++ w)) (z ++ u) >>= λ d.
        copy_range d (length x) (length x + length new) new)
      ≡ ok (x ++ (new ++ z))
shift_right {E} x w z u new h =
    let k = length new in
    let hp : length (take k w) ≡ k = omega (arith, length-take k w) in
    let ht : length z ≡ length (drop k w) = omega (arith, length-drop k w) in
    let e : x ++ w ≡ (x ++ take k w) ++ drop k w =
      ap (λ v. x ++ v) (sym (take-append-drop k w)) ∙ sym (append_assoc x (take k w) (drop k w)) in
    let e' : length x + k ≡ length (x ++ take k w) = omega (arith, length-append x (take k w)) in
    subst₂
      (λ v i.
        (copy_range {E = E} v i (length v) (z ++ u) >>= λ d.
        copy_range d (length x) (length x + length new) new)
        ≡ ok (x ++ (new ++ z)))
      (sym e) (sym e') (shift_by x (take k w) (drop k w) z u new hp ht)

-- what stands behind a range
slice_behind :
    {E : Type 0} (x y z : Bytes)
    → slice {E = E} (x ++ (y ++ z)) (length x + length y) (length (x ++ (y ++ z))) ≡ ok z
slice_behind {E} x y z =
    let l = length-append x y in
    subst₂ (λ (v : Bytes) i. slice {E = E} v i (length v) ≡ ok z) (append_assoc x y z) l
      (slice-append (x ++ y) z)

-- the front of a buffer in which `s` was written behind `x`
slice_front :
    {E : Type 0} (x s r : Bytes) (n : ℕ)
    → n ≡ length x + length s
    → slice {E = E} (x ++ (s ++ r)) 0 n ≡ ok (x ++ s)
slice_front {E} x s r n h =
    let l = length-append x (s ++ r) in
    let l' = length-append s r in
    rw (slice-take {E = E} (x ++ (s ++ r)) n (omega arith), h, take-append_ge, take-length-append)

-- a shorter text is written, and what stands behind the old one moves up to it
shrink_by :
    {E : Type 0} (x new old z : Bytes) (k : ℕ)
    → k ≡ length new + length old
    → (let b = x ++ (new ++ (old ++ z)) in
        (slice {E = E} b (length x + k) (length b) >>= λ rest.
        copy_range b (length x + length new) (length b) rest >>= λ c.
        slice c 0 (length c + length x + length new - (length x + k)))
        ≡ ok (x ++ (new ++ z)))
shrink_by {E} x new old z k h =
    let r = drop (length z) (old ++ z) in
    let lx = length-append x new in
    let ln = length-append new old in
    let lo = length-append old z in
    let lr = length-drop (length z) (old ++ z) in
    let lb = length-append (x ++ new) (old ++ z) in
    let lc = length-append (x ++ new) (z ++ r) in
    let lz = length-append z r in
    let k' : length x + length (new ++ old) ≡ length x + k = omega arith in
    let x' : length (x ++ new) ≡ length x + length new = lx in
    let read =
      subst₂ (λ (v : Bytes) i. slice {E = E} v i (length v) ≡ ok z)
        (ap (λ v. x ++ v) (append_assoc new old z)) k' (slice_behind x (new ++ old) z) in
    let written =
      subst₂ (λ (v : Bytes) i. copy_range {E = E} v i (length v) z ≡ ok ((x ++ new) ++ (z ++ r)))
        (append_assoc x new (old ++ z)) x'
        (copy_range-append (x ++ new) (old ++ z) z (length ((x ++ new) ++ (old ++ z))) (omega arith)
          (le_refl _)) in
    rw (read, written) (slice_front (x ++ new) z r _ (omega arith) ∙ ap ok (append_assoc x new z))

-- `Insert` puts the bytes between what stands before and behind the position.
pub insert-append :
    {E : Type 0} (x z b : Bytes) → insert {E = E} (x ++ z) (length x) b ≡ ok (x ++ (b ++ z))
unfolding insert
insert-append {E} x z b =
    let zeros = replicate {A = ℕ} (length b) 0 in
    let l = length-append z zeros in
    let r = length-replicate {A = ℕ} (length b) 0 in
    rw (append_assoc x z zeros, slice-append {E = E} x (z ++ zeros))
      (shift_right x (z ++ zeros) z zeros b (omega arith))

module _ {E : Type 0} (x y z : Bytes) where
  -- `Cut` takes out the range.
  pub cut-append : cut {E = E} (x ++ (y ++ z)) (length x) (length x + length y) ≡ ok (x ++ z)
  unfolding cut
  cut-append =
      let a = x ++ (y ++ z) in
      let r = drop (length z) (y ++ z) in
      let la = length-append x (y ++ z) in
      let lb = length-append x (z ++ r) in
      let lc = length-append z r in
      let ld = length-append y z in
      let le = length-drop (length z) (y ++ z) in
      rw
        (
          slice_behind {E = E} x y z,
          copy_range-append {E = E} x (y ++ z) z (length a) (omega arith) (le_refl _),
        )
        (slice_front x z r _ (omega arith))

  grow :
      (new : Bytes)
      → length y < length new
      → replace {E = E} (x ++ (y ++ z)) (length x) (length x + length y) new ≡ ok (x ++ (new ++ z))
  unfolding replace
  grow new h =
      let diff = length new - length y in
      let zeros = replicate {A = ℕ} diff 0 in
      let d : length x + length new - (length x + length y) ≡ diff = omega arith in
      let e : length x + length y + diff ≡ length x + length new = omega arith in
      let lz = length-replicate {A = ℕ} diff 0 in
      let l = length-append y (z ++ zeros) in
      let l' = length-append z zeros in
      rw
        (
          lt→ltb (length x + length y) (length x + length new) (omega arith),
          d,
          append_assoc x (y ++ z) zeros,
          append_assoc y z zeros,
          slice_behind {E = E} x y (z ++ zeros),
          e,
        )
        (shift_right x (y ++ (z ++ zeros)) z zeros new (omega arith))

  shrink :
      (new : Bytes)
      → length new < length y
      → replace {E = E} (x ++ (y ++ z)) (length x) (length x + length y) new ≡ ok (x ++ (new ++ z))
  unfolding replace
  shrink new h =
      let a = x ++ (y ++ z) in
      let la = length-append x (y ++ z) in
      let ld = length-append y z in
      rw
        (
          not_ltb (length x + length y) (length x + length new) (omega arith),
          lt→ltb (length x + length new) (length x + length y) (omega arith),
          copy_range-append {E = E} x (y ++ z) new (length a) (omega arith) (le_refl _),
          drop-append_le (length new) y z (omega arith),
        )
        (shrink_by x new (drop (length new) y) z (length y)
          (omega (arith, length-drop (length new) y)))

  same :
      (new : Bytes)
      → length new ≡ length y
      → replace {E = E} (x ++ (y ++ z)) (length x) (length x + length y) new ≡ ok (x ++ (new ++ z))
  unfolding replace
  same new h =
      let l = length-append x (y ++ z) in
      let l' = length-append y z in
      rw (
        not_ltb (length x + length y) (length x + length new) (omega arith),
        not_ltb (length x + length new) (length x + length y) (omega arith),
        copy_range-append {E = E} x (y ++ z) new (length (x ++ (y ++ z))) (omega arith) (le_refl _),
        h,
        drop-length-append y z,
      )

  -- `Replace` puts the new bytes in place of the range, whether they are more, fewer or as many.
  pub replace-append :
      (new : Bytes)
      → replace {E = E} (x ++ (y ++ z)) (length x) (length x + length y) new ≡ ok (x ++ (new ++ z))
  replace-append new = elim (dec_lt (length y) (length new)) [
    | yes longer ↦ grow new longer
    | no shorter ↦ elim (dec_lt (length new) (length y)) [
      | yes h ↦ shrink new h
      | no h ↦ same new (omega arith)
    ]
  ]
