-- ===== src/Message/Chunks.antt =====
-- tcp/tcp_message.go: when `MissingChunk` finds that bytes of a message are missing.
use mathlib.Core.Path.{subst}
use traffic.Base.Encoding.{All}
use traffic.Base.Outcome.{ok}
use traffic.Base.{
  ℕ, ◌+◌, ◌%◌, ◌^◌, ◌<◌, false, List, [], ◌∷◌, ◌≡◌, ◌↔◌, sym, ap, inl, inr, arith, ◌==◌, ==_iff,
  length, Bool-cases,
}
use traffic.Message.{Store, missing_from, missing_chunk, seq_of}
use traffic.Message.Order.{IsSorted}
use traffic.Packet.{Packet}

-- Each packet begins at the number behind the last byte of the one before, which is not past 2^32.
unfoldable pub IsContiguous : (ℕ → Packet) → ℕ → List ℕ → Type 0
IsContiguous packet p [] = Unit
IsContiguous packet p (q ∷ ps) =
    ((packet q).seq ≡ (packet p).seq + length (packet p).payload) × IsContiguous packet q ps

-- A sequence number is a uint32, and a payload is shorter than 2^32.
pub record IsInRange (packet : ℕ → Packet) (p : ℕ) : Type 0 where
  pub seq : (packet p).seq < 2 ^ 32
  pub payload : length (packet p).payload < 2 ^ 32

step_of :
    (packet : ℕ → Packet) (next q : ℕ) (ps : List ℕ)
    → missing_from packet next (q ∷ ps) ≡ false
    → ((packet q).seq ≡ next) × (missing_from packet (packet q).seq (q ∷ ps) ≡ false)
unfolding missing_from
step_of packet next q ps h = elim (Bool-cases ((packet q).seq == next)) [
  | inl e ↦
      let k : (packet q).seq ≡ next = (==_iff (packet q).seq next).0 e in
      (k, subst (λ n. missing_from packet n (q ∷ ps) ≡ false) (sym k) h)
  | inr e ↦ absurd (ground arith)
]

IsContiguous-of :
    (packet : ℕ → Packet) (p : ℕ) (ps : List ℕ)
    → IsSorted (λ r. (packet r).seq) (p ∷ ps)
    → All (IsInRange packet) (p ∷ ps)
    → missing_from packet (packet p).seq (p ∷ ps) ≡ false
    → IsContiguous packet p ps
unfolding missing_from IsSorted IsContiguous
IsContiguous-of packet p [] o w h = tt
IsContiguous-of packet p (q ∷ ps) o w h =
    let next = ((packet p).seq + length (packet p).payload) % 2 ^ 32 in
    let (e, rest) = step_of packet next q ps (ground arith) in
    let a = o.0.0 in
    let b = w.0.seq in
    let c = w.0.payload in (omega arith, IsContiguous-of packet q ps o.1 w.1 rest)

complete_of :
    (packet : ℕ → Packet) (p : ℕ) (ps : List ℕ)
    → All (IsInRange packet) (p ∷ ps)
    → IsContiguous packet p ps
    → missing_from packet (packet p).seq (p ∷ ps) ≡ false
unfolding missing_from IsContiguous
complete_of packet p [] w h = ground arith
complete_of packet p (q ∷ ps) w h =
    let b = w.1.0.seq in
    let e : ((packet p).seq + length (packet p).payload) % 2 ^ 32 ≡ (packet q).seq =
      omega (arith, h.0) in
    let k = complete_of packet q ps w.1 h.1 in rw e (ground arith)

-- For the sorted packets of a message, with values in range, `MissingChunk` returns false exactly
-- when each packet begins where the one before it ends, counted without wrapping at 2^32: a stream
-- whose numbers pass 2^32 is always reported as incomplete.
pub missing_chunk_iff :
    {E : Type 0} (s : Store) (r : ℕ) (rs : List ℕ)
    → IsSorted (seq_of s) (r ∷ rs)
    → All (IsInRange s.packet) (r ∷ rs)
    → (missing_chunk {E = E} s (r ∷ rs) ≡ ok false) ↔ IsContiguous s.packet r rs
unfolding missing_chunk
missing_chunk_iff s r rs o w =
    (λ h. IsContiguous-of s.packet r rs o w (cc), λ h. ap ok (complete_of s.packet r rs w h))
