-- ===== src/Packet/Copy.antt =====
-- tcp/tcp_packet.go: what `copySlice` copies.
use Prim.Native.Nat.{min}
use mathlib.Core.List.{flatten}
use native.Mathlib.Nat.{add-zero}
use traffic.Base.Outcome.{ok}
use traffic.Base.{
  ℕ, zero, suc, ◌+◌, ◌-◌, ◌≤◌, List, [], ◌∷◌, ◌++◌, append_assoc, append-nil, ◌≡◌, refl, ◌∙◌, ap,
  arith, Bool-cases, inl, inr, ltb, le→leb, length, take, drop, replicate, length-append,
  length-take, length-replicate, take-length-append, drop-append_ge,
}
use traffic.Packet.{Bytes, copy_onto, copy_all, total_length, copy_slice}

take-append : (n : ℕ) (s t : Bytes) → take n (s ++ t) ≡ take n s ++ take (n - length s) t
take-append zero s t = let e : zero ≡ zero - length s = omega arith in ap (λ k. take k t) e
take-append (suc n) [] t = let e : suc n ≡ suc n - 0 = omega arith in ap (λ k. take k t) e
take-append (suc n) (x ∷ s) t =
    let e : n - length s ≡ suc n - suc (length s) = omega arith in
    ap (◌∷◌ x) (take-append n s t ∙ ap (λ k. take n s ++ take k t) e)

take-min : (n : ℕ) (s : Bytes) → take (min n (length s)) s ≡ take n s
take-min zero s = let e : min zero (length s) ≡ zero = omega arith in ap (λ k. take k s) e
take-min (suc n) [] = let e : min (suc n) 0 ≡ zero = omega arith in ap (λ k. take {A = ℕ} k []) e
take-min (suc n) (x ∷ s) =
    let e : min (suc n) (suc (length s)) ≡ suc (min n (length s)) = omega arith in
    rw e (ap (◌∷◌ x) (take-min n s))

drop-replicate : (n m : ℕ) → n ≤ m → drop n (replicate {A = ℕ} m 0) ≡ replicate (m - n) 0
drop-replicate zero m h = ap (λ k. replicate k 0) (omega arith)
drop-replicate (suc n) zero h = absurd (omega arith)
drop-replicate (suc n) (suc m) h =
    drop-replicate n m (omega arith) ∙ ap (λ k. replicate k 0) (omega arith)

-- One copy fills the zeros behind `done` from the front.
copy_onto-replicate :
    {E : Type 0} (done s : Bytes) (room : ℕ)
    → copy_onto {E = E} (done ++ replicate room 0, length done) s
      ≡ ok ((done ++ take room s) ++ replicate (room - length s) 0, length (done ++ take room s))
unfolding copy_onto
copy_onto-replicate {E} done s room =
    let zeros = replicate {A = ℕ} room 0 in
    let l = length-append done zeros in
    let r = length-replicate {A = ℕ} room 0 in
    let n : min (length (done ++ zeros) - length done) (length s) ≡ min room (length s) =
      omega arith in
    let left : room - min room (length s) ≡ room - length s = omega arith in
    rw (le→leb (length done) (length (done ++ zeros)) (omega arith), take-length-append done zeros)
      (rw (
        n,
        take-min,
        drop-append_ge,
        drop-replicate (min room (length s)) room (omega arith),
        left,
        append_assoc,
        length-append,
        length-take,
      ))

copy_all-replicate :
    {E : Type 0} (from : List Bytes) (done : Bytes) (room : ℕ)
    → room ≤ total_length from
    → copy_all {E = E} (done ++ replicate room 0, length done) from
      ≡ ok (done ++ take room (flatten from), length done + room)
unfolding copy_all total_length flatten
copy_all-replicate [] done room h = let e : room ≡ 0 = omega arith in rw (e, add-zero) refl
copy_all-replicate {E} (s ∷ from) done room h =
    let l = length-append done (take room s) in
    let l' = length-take room s in
    let e : length (done ++ take room s) + (room - length s) ≡ length done + room = omega arith in
    rw (copy_onto-replicate {E = E} done s room) (
      copy_all-replicate from (done ++ take room s) (room - length s) (omega arith)
      ∙ rw (e, append_assoc, take-append))

-- `copySlice`, called as `Data` calls it, on a slice `to` with `capacity - len(to)` bytes of unused
-- capacity: of the bytes of the other slices, one after another, that many are missing at the end.
pub copy_slice-take :
    {E : Type 0} (to : Bytes) (capacity : ℕ) (from : List Bytes)
    → length to ≤ capacity
    → (let room = total_length from + length to - capacity in
        copy_slice {E = E} to capacity (length to) from
        ≡ ok (to ++ take room (flatten from), length to + room))
unfolding copy_slice
copy_slice-take {E} to capacity from h =
    let room = total_length from + length to - capacity in
    elim (Bool-cases (ltb capacity (total_length from + length to))) [
      | inl grows ↦ rw grows (copy_all-replicate from to room (omega arith))
      | inr fits ↦
          let e : room ≡ 0 = ground arith in
          rw (fits, e, append-nil)
            (rw append-nil at (copy_all-replicate {E = E} from to 0 (omega arith)))
    ]
