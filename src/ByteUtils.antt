-- ===== src/ByteUtils.antt =====
-- byteutils/byteutils.go: edits of a range of a slice. A slice is its bytes; an operation writes
-- into the array of its argument and returns the slice that its caller goes on with.
pub mod Splice
use Prim.Native.Nat.{min}
use traffic.Base.Outcome.{Outcome, ok, panic, ◌>>=◌, slice}
use traffic.Base.{
  ℕ, ◌+◌, ◌-◌, Bool, ◌&&◌, List, ◌++◌, ltb, leb, if◌then◌else◌, length, take, drop, replicate,
}

abbrev pub Bytes : Type 0
Bytes = List ℕ

-- `copy(to[i:j], from)` for `i` and `j` in range: as many bytes as both hold, read before written
abbrev pub copy_into : Bytes → ℕ → ℕ → Bytes → Bytes
copy_into to i j from =
    let n = min (j - i) (length from) in take i to ++ (take n from ++ drop (i + n) to)

-- the built-in `copy`, with the check of the range of the target
unfoldable pub copy_range : {E : Type 0} → Bytes → ℕ → ℕ → Bytes → Outcome E Bytes
copy_range to i j from = if leb i j && leb j (length to) then ok (copy_into to i j from) else panic

module _ {E : Type 0} where
  unfoldable pub cut : Bytes → ℕ → ℕ → Outcome E Bytes
  cut a from to = do
    rest ← slice a to (length a)
    b ← copy_range a from (length a) rest
    slice b 0 (length b + from - to)

  unfoldable pub insert : Bytes → ℕ → Bytes → Outcome E Bytes
  insert a i b = do
    let c = a ++ replicate (length b) 0
    rest ← slice c i (length c)
    d ← copy_range c (i + length b) (length c) rest
    copy_range d i (i + length b) b

  -- The sign of `lenDiff` is that of `from + len(new) - to`.
  unfoldable pub replace : Bytes → ℕ → ℕ → Bytes → Outcome E Bytes
  replace a from to new =
      if ltb to (from + length new)
      then (do
        let diff = from + length new - to
        let b = a ++ replicate diff 0
        rest ← slice b to (length b)
        c ← copy_range b (to + diff) (length b) rest
        copy_range c from (from + length new) new)
      else if ltb (from + length new) to
      then (do
        b ← copy_range a from (length a) new
        rest ← slice b to (length b)
        c ← copy_range b (from + length new) (length b) rest
        slice c 0 (length c + from + length new - to))
      else copy_range a from (length a) new
