-- ===== src/Http/Whole.antt =====
-- proto/proto.go: a body of whole chunks is scanned to its end.
use native.Mathlib.Nat.{mod-eq_of_lt}
use traffic.Base.Encoding.{All}
use traffic.Base.Outcome.{at-drop, ok, ◌>>=◌, at}
use traffic.Base.{
  ℕ, zero, suc, ◌+◌, ◌-◌, ◌%◌, ◌^◌, ◌<◌, true, false, List, [], ◌∷◌, ◌++◌, append_assoc, some, ◌≡◌,
  refl, sym, ap, ◌∙◌, arith, ltb, leb, ◌==◌, not_ltb, not_leb, lt→ltb, length, take, drop,
  length-append, length-drop, take-length-append,
}
use traffic.Http.Chunked.{chunk, chunk_ends, check_round, check_from, check_chunked}
use traffic.Http.Header.Line.{drop_behind}
use traffic.Http.Search.{Bytes}
use traffic.Http.Title.{ato_i}
use traffic.Packet.{HdrError}
use traffic.Payload.{index_byte}
use traffic.Payload.Meta.{Lacks, index_byte-append}

-- A chunk: the text of its size, and its octets.
pub record Chunk : Type 0 where
  pub size_text : Bytes
  pub octets : Bytes

-- The size is that of the octets in hexadecimal digits.
pub record IsChunk (c : Chunk) : Type 0 where
  pub not_empty : 0 < length c.size_text
  pub one_line : Lacks b'\r' c.size_text
  pub size : ato_i c.size_text 16 ≡ (length c.octets, true)

-- A chunk as it is sent, in front of what follows it.
unfoldable pub sent : Chunk → Bytes → Bytes
sent c more = c.size_text ++ (b'\r' ∷ b'\n' ∷ (c.octets ++ (b'\r' ∷ b'\n' ∷ more)))

unfoldable pub size_of : Chunk → ℕ
size_of c = length c.size_text + length c.octets + 4

-- Chunks in front of what follows them, and the length that they take.
unfoldable pub sent_all : List Chunk → Bytes → Bytes
unfolding sent
sent_all [] more = more
sent_all (c ∷ cs) more = sent c (sent_all cs more)

unfoldable pub size_all : List Chunk → ℕ
unfolding size_of
size_all [] = 0
size_all (c ∷ cs) = size_of c + size_all cs

length-sent : (c : Chunk) (more : Bytes) → length (sent c more) ≡ size_of c + length more
unfolding sent size_of
length-sent c more = omega (
  arith,
  length-append c.size_text (b'\r' ∷ b'\n' ∷ (c.octets ++ (b'\r' ∷ b'\n' ∷ more))),
  length-append c.octets (b'\r' ∷ b'\n' ∷ more),
)

sent-append : (c : Chunk) (more : Bytes) → sent c more ≡ sent c [] ++ more
unfolding sent
sent-append c more =
    ap (λ s. c.size_text ++ (b'\r' ∷ b'\n' ∷ s))
      (sym (append_assoc c.octets (b'\r' ∷ b'\n' ∷ []) more))
    ∙ sym (append_assoc c.size_text _ more)

at_front :
    (buf x y : Bytes) (b n : ℕ)
    → drop n buf ≡ x ++ (b ∷ y)
    → at {E = HdrError} buf (n + length x) ≡ ok b
at_front buf x y b n e =
    let d : drop (n + length x) buf ≡ b ∷ y = drop_behind buf x (b ∷ y) n e in
    ap (at buf) (omega arith) ∙ at-drop buf (n + length x) 0 ∙ ap (λ s. at s 0) d

-- A whole chunk is passed over, and is the last one where it has no octets.
check_round-sent :
    (buf more : Bytes) (n : ℕ) (c : Chunk)
    → IsChunk c
    → drop n buf ≡ sent c more
    → length buf < 2 ^ 63
    → check_round {E = HdrError} buf n ≡ ok (chunk (n + size_of c) (length c.octets == 0))
unfolding check_round chunk_ends sent size_of
check_round-sent buf more n c h e l =
    let f = c.size_text in
    let tail = b'\n' ∷ (c.octets ++ (b'\r' ∷ b'\n' ∷ more)) in
    let sz = n + length f + 1 in
    let stop = sz + length c.octets + 2 in
    let inside : stop < length buf = omega (
      arith,
      ap length e,
      length-drop n buf,
      length-append f (b'\r' ∷ tail),
      length-append c.octets (b'\r' ∷ b'\n' ∷ more),
    ) in
    let whole : stop % 2 ^ 64 ≡ stop = mod-eq_of_lt (omega arith) in
    let at_cr : index_byte (drop n buf) b'\r' ≡ some (length f) =
      ap (λ s. index_byte s b'\r') e ∙ index_byte-append f tail b'\r' h.one_line in
    let field : take (length f) (drop n buf) ≡ f =
      ap (take (length f)) e ∙ take-length-append f (b'\r' ∷ tail) in
    let at_lf : at {E = HdrError} buf sz ≡ ok b'\n' =
      ap (at buf) (omega (arith, length-append f (b'\r' ∷ [])))
      ∙ at_front buf (f ++ (b'\r' ∷ [])) (c.octets ++ (b'\r' ∷ b'\n' ∷ more)) b'\n' n
          (e ∙ sym (append_assoc f (b'\r' ∷ []) tail)) in
    let octets : drop (sz + 1) buf ≡ c.octets ++ (b'\r' ∷ b'\n' ∷ more) =
      ap (λ i. drop i buf) (omega (arith, length-append f (b'\r' ∷ b'\n' ∷ [])))
      ∙ drop_behind buf (f ++ (b'\r' ∷ b'\n' ∷ [])) (c.octets ++ (b'\r' ∷ b'\n' ∷ more)) n
          (e ∙ sym (append_assoc f (b'\r' ∷ b'\n' ∷ []) (c.octets ++ (b'\r' ∷ b'\n' ∷ more)))) in
    let at_end : at {E = HdrError} buf stop ≡ ok b'\n' =
      ap (at buf) (omega (arith, length-append c.octets (b'\r' ∷ [])))
      ∙ at_front buf (c.octets ++ (b'\r' ∷ [])) more b'\n' (sz + 1)
          (octets ∙ sym (append_assoc c.octets (b'\r' ∷ []) (b'\n' ∷ more))) in
    let at_last : at {E = HdrError} buf (stop - 1) ≡ ok b'\r' =
      ap (at buf) (omega arith) ∙ at_front buf c.octets (b'\n' ∷ more) b'\r' (sz + 1) octets in
    let some_size : ltb (length f) 1 ≡ false = not_ltb (length f) 1 h.not_empty in
    let fits : leb (length buf) stop ≡ false = not_leb (length buf) stop inside in
    let below : ltb stop (2 ^ 63) ≡ true = lt→ltb stop (2 ^ 63) (omega arith) in
    let ends : chunk_ends {E = HdrError} buf sz stop ≡ ok true =
      rw (chunk_ends, at_lf, ◌>>=◌, at_end, ◌>>=◌, at_last, ◌>>=◌) refl in
    rw (check_round, at_cr, some_size, field, h.size, whole, below, fits, ends, ◌>>=◌)
      (ap (λ k. ok (chunk k (length c.octets == 0))) (omega arith))

-- The chunks that come before the last: each has octets.
abbrev pub IsInner : Chunk → Type 0
IsInner c = IsChunk c × (0 < length c.octets)

check_from-sent :
    (fuel : ℕ) (buf rest : Bytes) (n : ℕ) (cs : List Chunk) (last : Chunk)
    → All IsInner cs
    → IsChunk last
    → last.octets ≡ []
    → drop n buf ≡ sent_all cs (sent last rest)
    → length buf < 2 ^ 63
    → length cs < fuel
    → check_from {E = HdrError} fuel buf n ≡ ok (n + size_all cs + size_of last, true)
unfolding check_from size_all sent_all size_of sent
check_from-sent zero buf rest n cs last h hl z e l f = absurd (omega arith)
check_from-sent (suc fuel) buf rest n [] last h hl z e l f =
    let inside : ltb n (length buf) ≡ true =
      lt→ltb n (length buf)
        (omega (arith, ap length e, length-drop n buf, length-sent last rest)) in
    let none_left : (length last.octets == 0) ≡ true = ap (λ o. length o == 0) z in
    rw (check_from, inside, check_round-sent buf rest n last hl e l, none_left, ◌>>=◌)
      (ap (λ k. ok (k, true)) (omega arith))
check_from-sent (suc fuel) buf rest n (c ∷ cs) last h hl z e l f =
    let more = sent_all cs (sent last rest) in
    let inside : ltb n (length buf) ≡ true =
      lt→ltb n (length buf) (omega (arith, ap length e, length-drop n buf, length-sent c more)) in
    let has : (length c.octets == 0) ≡ false = ground arith in
    let next : drop (n + size_of c) buf ≡ more =
      ap (λ k. drop k buf) (omega (arith, length-sent c []))
      ∙ drop_behind buf (sent c []) more n (e ∙ sent-append c more) in
    rw (check_from, inside, check_round-sent buf more n c h.0.0 e l, has, ◌>>=◌)
      (check_from-sent fuel buf rest (n + size_of c) cs last h.1 hl z next l (omega arith)
        ∙ ap (λ k. ok (k, true)) (omega arith))

-- A body in chunks is scanned to its end, whatever follows it.
pub check_chunked-sent_all :
    (fuel : ℕ) (rest : Bytes) (bufs : List Bytes) (cs : List Chunk) (last : Chunk)
    → All IsInner cs
    → IsChunk last
    → last.octets ≡ []
    → length (sent_all cs (sent last rest)) < 2 ^ 63
    → length cs < fuel
    → check_chunked {E = HdrError} fuel (sent_all cs (sent last rest) ∷ bufs)
      ≡ ok (size_all cs + size_of last, true)
unfolding check_chunked
check_chunked-sent_all fuel rest bufs cs last h hl z l f =
    check_from-sent fuel (sent_all cs (sent last rest)) rest 0 cs last h hl z refl l f
    ∙ ap (λ k. ok (k, true)) (omega arith)
