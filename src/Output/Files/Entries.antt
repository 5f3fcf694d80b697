-- ===== src/Output/Files/Entries.antt =====
-- output/output_file.go and input/input_file.go: one record of a file is read back.
use mathlib.Core.Path.{subst}
use traffic.Base.Encoding.{ℤ, decimal, All}
use traffic.Base.Outcome.{ok, at}
use traffic.Base.{
  ℕ, ◌-◌, true, false, List, [], ◌∷◌, ◌++◌, append_assoc, ◌==◌, length, take, ◌≡◌, refl, sym, ap,
  ◌∙◌, arith, inl, inr, Bool-cases, ==_iff, length-append, take-length-append,
}
use traffic.Http.Search.{Bytes, equal}
use traffic.Packet.{HdrError}
use traffic.Payload.{payload_header, payload_meta, split}
use traffic.Payload.Meta.{Lacks, payload_meta-header, line, header-line, line-Lacks}
use traffic.FileInput.{FileReader, marker, parse_next}
use traffic.FileInput.Records.{joined, IsLine, parse_next-joined}
use traffic.Output.Files.Written.{recorded}

split_here : (b c : ℕ) (s : Bytes) → (b == c) ≡ true → split (b ∷ s) c ≡ [] ∷ split s c
unfolding split
split_here b c s h = rw (h, split) refl

split_later :
    (b c : ℕ) (s p : Bytes) (ps : List Bytes)
    → (b == c) ≡ false
    → split s c ≡ p ∷ ps
    → split (b ∷ s) c ≡ (b ∷ p) ∷ ps
unfolding split
split_later b c s p ps h k = rw (h, split, k) refl

split-cons : (s : Bytes) (c : ℕ) → (p : Bytes) × (ps : List Bytes) × (split s c ≡ p ∷ ps)
unfolding split
split-cons [] c = ([], [], refl)
split-cons (b ∷ s) c = elim (Bool-cases (b == c)) [
  | inl e ↦ ([], split s c, split_here b c s e)
  | inr e ↦ let (p, ps, k) = split-cons s c in (b ∷ p, ps, split_later b c s p ps e k)
]

split-Lacks_each : (s : Bytes) (c : ℕ) → All (Lacks c) (split s c)
unfolding split
split-Lacks_each [] c = (tt, tt)
split-Lacks_each (b ∷ s) c = elim (Bool-cases (b == c)) [
  | inl e ↦ rw (split_here b c s e) (tt, split-Lacks_each s c)
  | inr e ↦
      let (p, ps, k) = split-cons s c in
      let (l, ls) = subst (All (Lacks c)) k (split-Lacks_each s c) in
      rw (split_later b c s p ps e k) ((ground arith, l), ls)
]

joined-split : (s : Bytes) → joined (split s b'\n') ≡ s ++ (b'\n' ∷ [])
unfolding split joined
joined-split [] = refl
joined-split (b ∷ s) = elim (Bool-cases (b == b'\n')) [
  | inl e ↦
      rw (split_here b b'\n' s e, joined)
        (ap (λ c. c ∷ joined (split s b'\n')) (sym ((==_iff b b'\n').0 e))
          ∙ ap (◌∷◌ b) (joined-split s))
  | inr e ↦
      let (p, ps, k) = split-cons s b'\n' in
      rw (split_later b b'\n' s p ps e k, joined) (ap (◌∷◌ b) (ap joined (sym k) ∙ joined-split s))
]

-- None of the lines of a body is the marker between records.
abbrev pub IsStorable : Bytes → Type 0
IsStorable body = All (λ w. equal marker (w ++ (b'\n' ∷ [])) ≡ false) (split body b'\n')

lines-IsLine :
    (ws : List Bytes)
    → All (Lacks b'\n') ws
    → All (λ w. equal marker (w ++ (b'\n' ∷ [])) ≡ false) ws
    → All IsLine ws
lines-IsLine [] l h = tt
lines-IsLine (w ∷ ws) l h = (record { one_line = l.0; not_marker = h.0 }, lines-IsLine ws l.1 h.1)

-- A request as it is recorded.
pub record Entry : Type 0 where
  pub uuid : Bytes
  pub timing : ℤ
  pub latency : ℤ
  pub body : Bytes

abbrev pub entry_meta : Entry → Bytes
entry_meta m = payload_header b'1' m.uuid m.timing m.latency

abbrev pub entry_payload : Entry → Bytes
entry_payload m = entry_meta m ++ m.body

-- The id is one word, and the body can be told from the marker.
pub record IsEntry (m : Entry) : Type 0 where
  pub one_line : Lacks b'\n' m.uuid
  pub one_word : Lacks b' ' m.uuid
  pub storable : IsStorable m.body

-- the lines of a record
entry_lines : Entry → List Bytes
entry_lines m = line b'1' m.uuid m.timing m.latency ∷ split m.body b'\n'

joined-entry_lines : (m : Entry) → joined (entry_lines m) ≡ entry_payload m ++ (b'\n' ∷ [])
unfolding entry_lines joined
joined-entry_lines m =
    let end_line = m.body ++ (b'\n' ∷ []) in
    ap (λ x. line b'1' m.uuid m.timing m.latency ++ (b'\n' ∷ x)) (joined-split m.body)
    ∙ sym (header-line b'1' m.uuid m.timing m.latency end_line)
    ∙ sym (append_assoc (entry_meta m) m.body (b'\n' ∷ []))

entry_lines-IsLine : (m : Entry) → IsEntry m → All IsLine (entry_lines m)
unfolding entry_lines line equal
entry_lines-IsLine m h = (
  record {
    one_line = line-Lacks b'1' m.uuid m.timing m.latency [] (omega arith) h.one_line;
    not_marker = refl;
  },
  lines-IsLine (split m.body b'\n') (split-Lacks_each m.body b'\n') h.storable,
)

take-snoc : (s : Bytes) (c : ℕ) → take (length (s ++ (c ∷ [])) - 1) (s ++ (c ∷ [])) ≡ s
take-snoc s c =
    let l = length-append s (c ∷ []) in
    let n : length (s ++ (c ∷ [])) - 1 ≡ length s = omega arith in
    ap (λ k. take k (s ++ (c ∷ []))) n ∙ take-length-append s (c ∷ [])

recorded-lines :
    (m : Entry) (more : Bytes)
    → recorded (entry_meta m) m.body ++ more ≡ joined (entry_lines m) ++ (marker ++ more)
recorded-lines m more = rw (joined-entry_lines m) (simp append_assoc)

at-meta :
    (m : Entry)
    → IsEntry m
    → at {E = HdrError} (payload_meta (joined (entry_lines m))) 2 ≡ ok (decimal m.timing)
at-meta m h =
    let end_line = m.body ++ (b'\n' ∷ []) in
    let e : joined (entry_lines m) ≡ entry_meta m ++ end_line =
      joined-entry_lines m ∙ append_assoc (entry_meta m) m.body (b'\n' ∷ []) in
    rw
      (
        e,
        payload_meta-header b'1' m.uuid m.timing m.latency end_line (omega arith) h.one_line
            (omega arith) h.one_word,
      )
      refl

pub parse_next-recorded :
    (parse_int : Bytes → ℤ) (f : FileReader) (m : Entry) (more : Bytes)
    → IsEntry m
    → f.unread ≡ recorded (entry_meta m) m.body ++ more
    → parse_next {E = HdrError} parse_int f
      ≡ ok (
        record f {
          unread = more;
          body = entry_payload m;
          timestamp = parse_int (decimal m.timing);
        },
        true,
      )
parse_next-recorded parse_int f m more h e =
    let j = joined (entry_lines m) in
    let b : take (length j - 1) j ≡ entry_payload m =
      ap (λ x. take (length x - 1) x) (joined-entry_lines m) ∙ take-snoc (entry_payload m) b'\n' in
    parse_next-joined parse_int f (entry_lines m) (decimal m.timing) more (entry_lines-IsLine m h)
      (e ∙ recorded-lines m more) (at-meta m h)
    ∙ ap
        (λ x.
          ok (record f { unread = more; body = x; timestamp = parse_int (decimal m.timing) }, true))
        b
