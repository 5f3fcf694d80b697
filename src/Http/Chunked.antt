-- ===== src/Http/Chunked.antt =====
-- proto/proto.go: `CheckChunked`.
use Prim.Native.Nat.{bit_and}
use traffic.Base.Outcome.{Outcome, ok, loops, ◌>>=◌, at}
use traffic.Base.{
  ℕ, zero, suc, ◌+◌, ◌-◌, ◌%◌, ◌^◌, Bool, true, false, not, ◌&&◌, List, [], ◌∷◌, none, some, ltb,
  leb, ◌==◌, if◌then◌else◌, length, take, drop,
}
use traffic.Http.Search.{Bytes}
use traffic.Http.Title.{ato_i}
use traffic.Payload.{index_byte}

-- `bytes.IndexByte(s, c) < 1`
unfoldable pub none_behind_first : Bytes → ℕ → Bool
none_behind_first s c = elim (index_byte s c) [ none ↦ true | some i ↦ ltb i 1 ]

-- What a round decides: to leave the loop, or to go on behind a chunk, the last one or not.
pub data Round : Type 0 where
  leave : Round
  chunk : ℕ → Bool → Round

-- `buf[sz]&buf[allChunk] != '\n' || buf[allChunk-1] != '\r'`; `all_chunk` is an int as 64 bits, and
-- the index is out of range if it is negative
unfoldable pub chunk_ends : {E : Type 0} → Bytes → ℕ → ℕ → Outcome E Bool
chunk_ends buf sz all_chunk = do
  a ← at buf sz
  b ← at buf all_chunk
  if not (bit_and a b == b'\n') then ok false else do c ← at buf (all_chunk - 1); ok (c == b'\r')

unfoldable pub check_round : {E : Type 0} → Bytes → ℕ → Outcome E Round
check_round buf chunk_end = elim (index_byte (drop chunk_end buf) b'\r') [
  | none ↦ ok leave
  | some size_len ↦
      let field = take size_len (drop chunk_end buf) in
      let chk_len = (ato_i field 16).0 in
      let sz = chunk_end + size_len + 1 in
      let all_chunk = (sz + chk_len + 2) % 2 ^ 64 in
      if ltb size_len 1
      then ok leave
      else if not (ato_i field 16).1 && none_behind_first field b';'
      then ok leave
      else if ltb all_chunk (2 ^ 63) && leb (length buf) all_chunk
      then ok leave
      else (chunk_ends buf sz all_chunk >>= λ ends.
          ok (if ends then chunk (all_chunk + 1) (chk_len == 0) else leave))
]

-- The loop; with no fuel left it would go on.
unfoldable pub check_from : {E : Type 0} → ℕ → Bytes → ℕ → Outcome E (ℕ × Bool)
check_from zero buf chunk_end = loops
check_from (suc fuel) buf chunk_end = elim (ltb chunk_end (length buf)) [
  | false ↦ ok (chunk_end, false)
  | true ↦ check_round buf chunk_end >>= elim [
    | leave ↦ ok (chunk_end, false)
    | chunk next true ↦ ok (next, true)
    | chunk next false ↦ check_from fuel buf next
  ]
]

-- the first buffer alone is looked at
unfoldable pub check_chunked : {E : Type 0} → ℕ → List Bytes → Outcome E (ℕ × Bool)
check_chunked fuel [] = ok (0, false)
check_chunked fuel (buf ∷ bufs) = check_from fuel buf 0
