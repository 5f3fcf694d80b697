-- ===== src/Http/Header/Found.antt =====
-- proto/proto.go: a header is found behind the lines of other headers, and its value is read.
use traffic.Base.Encoding.{All, All-append}
use traffic.Base.Outcome.{at-drop, ok, ◌>>=◌, at, slice, at-get_or, slice-take-drop}
use traffic.Base.{
  ℕ, zero, suc, ◌+◌, ◌-◌, ◌≤◌, ◌<◌, true, false, List, [], ◌∷◌, ◌++◌, append_assoc, some, ◌≡◌, ◌≢◌,
  refl, sym, ap, ◌∙◌, inl, inr, arith, ltb, length, get_or, take, drop, not_ltb, lt→ltb, Bool-cases,
  length-append, length-drop, take-length-append, get_or-append,
}
use traffic.FileInput.Records.{joined}
use traffic.Http.Header.{Place, find_line, trim_front, trim_back, trim}
use traffic.Http.Search.{Bytes, equal_fold}
use traffic.Packet.{HdrError}
use traffic.Payload.Meta.{Lacks}
use traffic.Http.Header.Line.{IsOther, drop_behind, drop_line, skip_line, found_line}

-- Bytes that the trimming leaves: some, the first and the last of which are no spaces.
pub record IsValue (value : Bytes) : Type 0 where
  pub not_empty : 0 < length value
  pub first_visible : 0x21 ≤ get_or value 0 0
  pub last_visible : 0x21 ≤ get_or value (length value - 1) 0

at_value :
    (payload value more : Bytes) (q i : ℕ)
    → drop q payload ≡ value ++ more
    → i < length value
    → at {E = HdrError} payload (q + i) ≡ ok (get_or value i 0)
at_value payload value more q i e l =
    at-drop payload q i
    ∙ ap (λ s. at s i) e
    ∙ at-get_or (value ++ more) i 0 (omega (arith, length-append value more))
    ∙ ap ok (get_or-append value more i 0 l)

-- One space in front of a value is left out.
trim_front-space :
    (rounds : ℕ) (payload value more : Bytes) (q : ℕ)
    → drop q payload ≡ b' ' ∷ (value ++ more)
    → IsValue value
    → trim_front {E = HdrError} (suc (suc rounds)) payload q (q + 1 + length value) ≡ ok (q + 1)
unfolding trim_front
trim_front-space rounds payload value more q e v =
    let n = v.not_empty in
    let stop = q + 1 + length value in
    let at_space : at {E = HdrError} payload q ≡ ok b' ' =
      ap (at payload) (omega arith)
      ∙ at_value payload (b' ' ∷ []) (value ++ more) q 0 e (omega arith) in
    let behind : drop (q + 1) payload ≡ value ++ more =
      drop_behind payload (b' ' ∷ []) (value ++ more) q e in
    let at_first : at {E = HdrError} payload (q + 1) ≡ ok (get_or value 0 0) =
      ap (at payload) (omega arith) ∙ at_value payload value more (q + 1) 0 behind n in
    let visible : ltb (get_or value 0 0) 0x21 ≡ false = not_ltb _ _ v.first_visible in
    rw (trim_front, lt→ltb (q + 1) stop (omega arith), at_space, ◌>>=◌, trim_front)
      (elim (Bool-cases (ltb (q + 1 + 1) stop)) [
        | inr s ↦ rw (trim_front, s) refl
        | inl s ↦ rw (trim_front, s, at_first, ◌>>=◌, visible) refl
      ])

trim_back-visible :
    (rounds : ℕ) (payload value more : Bytes) (q : ℕ)
    → drop q payload ≡ value ++ more
    → IsValue value
    → trim_back {E = HdrError} (suc rounds) payload q (q + length value) ≡ ok (q + length value)
unfolding trim_back
trim_back-visible rounds payload value more q e v =
    let n = v.not_empty in
    let stop = q + length value in
    let at_last : at {E = HdrError} payload (stop - 1) ≡ ok (get_or value (length value - 1) 0) =
      ap (at payload) (omega arith)
      ∙ at_value payload value more q (length value - 1) e (omega arith) in
    let visible : ltb (get_or value (length value - 1) 0) 0x21 ≡ false =
      not_ltb _ _ v.last_visible in
    elim (Bool-cases (ltb (q + 1) stop)) [
      | inr s ↦ rw (trim_back, s) refl
      | inl s ↦ rw (trim_back, s, at_last, ◌>>=◌, visible) refl
    ]

-- The place of a header at a position, and that of its value without the spaces.
abbrev pub line_place : ℕ → Bytes → Bytes → Place
line_place k name value =
    let line = name ++ (b':' ∷ b' ' ∷ (value ++ (b'\r' ∷ []))) in
    record {
      start = k;
      end_at = k + length line;
      value_start = k + length name + 1;
      value_stop = k + length line - 1;
    }

abbrev pub value_place : ℕ → Bytes → Bytes → Place
value_place k name value = record (line_place k name value) {
  value_start = k + length name + 2;
  value_stop = k + length name + 2 + length value;
}

-- A header, behind its name, with what follows its line.
abbrev pub behind_name : Bytes → Bytes → Bytes
behind_name value rest = b':' ∷ b' ' ∷ (value ++ (b'\r' ∷ b'\n' ∷ rest))

pub trim-value :
    (payload name value rest : Bytes) (k : ℕ)
    → drop k payload ≡ name ++ behind_name value rest
    → IsValue value
    → trim {E = HdrError} payload (line_place k name value)
      ≡ ok (value, some (value_place k name value))
unfolding trim
trim-value payload name value rest k e v =
    let n = v.not_empty in
    let q = k + length name + 1 in
    let more = b'\r' ∷ b'\n' ∷ rest in
    let at_space : drop q payload ≡ b' ' ∷ (value ++ more) =
      let m : q ≡ k + length (name ++ (b':' ∷ [])) =
        omega (arith, length-append name (b':' ∷ [])) in
      ap (λ i. drop i payload) m
      ∙ drop_behind payload (name ++ (b':' ∷ [])) (b' ' ∷ (value ++ more)) k
          (e ∙ sym (append_assoc name (b':' ∷ []) (b' ' ∷ (value ++ more)))) in
    let at_value : drop (q + 1) payload ≡ value ++ more =
      drop_behind payload (b' ' ∷ []) (value ++ more) q at_space in
    let l1 = length-append name (b':' ∷ b' ' ∷ (value ++ (b'\r' ∷ []))) in
    let l2 = length-append value (b'\r' ∷ []) in
    let l3 = length-append value more in
    let l4 = length-drop q payload in
    let l5 = ap length at_space in
    let rounds : length payload ≡ suc (suc (length payload - 2)) = omega arith in
    let one_round : length payload ≡ suc (length payload - 1) = omega arith in
    let same : q + 1 ≡ k + length name + 2 = omega arith in
    let stop : k + length (name ++ (b':' ∷ b' ' ∷ (value ++ (b'\r' ∷ [])))) - 1
        ≡ q + 1 + length value =
      omega arith in
    let r = k + length name + 2 in
    let front : trim_front {E = HdrError} (length payload) payload q
          (k + length (name ++ (b':' ∷ b' ' ∷ (value ++ (b'\r' ∷ [])))) - 1)
        ≡ ok r =
      ap (λ i. trim_front (length payload) payload q i) stop
      ∙ ap (λ i. trim_front i payload q (q + 1 + length value)) rounds
      ∙ trim_front-space (length payload - 2) payload value more q at_space v
      ∙ ap ok same in
    let at_r : drop r payload ≡ value ++ more = ap (λ i. drop i payload) (sym same) ∙ at_value in
    let back : trim_back {E = HdrError} (length payload) payload r
          (k + length (name ++ (b':' ∷ b' ' ∷ (value ++ (b'\r' ∷ [])))) - 1)
        ≡ ok (r + length value) =
      ap (λ i. trim_back (length payload) payload r i) (omega arith)
      ∙ ap (λ i. trim_back i payload r (r + length value)) one_round
      ∙ trim_back-visible (length payload - 1) payload value more r at_r v in
    let cut_out : slice {E = HdrError} payload r (r + length value) ≡ ok value =
      slice-take-drop {E = HdrError} payload r (r + length value) (omega arith) (omega arith)
      ∙ ap (λ i. ok (take i (drop r payload))) (omega arith)
      ∙ ap (λ s. ok (take (length value) s)) at_r
      ∙ ap ok (take-length-append value more) in
    rw (front, ◌>>=◌, back, ◌>>=◌, cut_out) refl

-- Lines of other headers, none of which is the header of the name.
abbrev pub AreOthers : Bytes → List Bytes → Type 0
AreOthers key = All (λ line. Lacks b'\n' line × IsOther key line)

-- A header's name, as it stands in a payload.
pub record IsName (key name : Bytes) : Type 0 where
  pub one_line : Lacks b'\n' name
  pub no_colon : Lacks b':' name
  pub same_name : equal_fold name key ≡ true

line_shape :
    (name value rest : Bytes)
    → name ++ behind_name value rest
      ≡ name ++ (b':' ∷ ((b' ' ∷ (value ++ (b'\r' ∷ []))) ++ (b'\n' ∷ rest)))
line_shape name value rest =
    ap (λ s. name ++ (b':' ∷ b' ' ∷ s)) (sym (append_assoc value (b'\r' ∷ []) (b'\n' ∷ rest)))

pub find_line-behind :
    (fuel : ℕ) (payload key name value rest : Bytes) (others : List Bytes) (k : ℕ)
    → drop k payload ≡ joined others ++ (name ++ behind_name value rest)
    → AreOthers key others
    → IsName key name
    → Lacks b'\n' value
    → length others < fuel
    → find_line fuel payload key k ≡ some (line_place (k + length (joined others)) name value)
unfolding joined
find_line-behind zero payload key name value rest others k e o n l f = absurd (omega arith)
find_line-behind (suc fuel) payload key name value rest [] k e o n l f =
    found_line fuel payload key name (b' ' ∷ (value ++ (b'\r' ∷ []))) rest k
      (e ∙ line_shape name value rest) n.one_line n.no_colon
      (omega arith, All-append (λ b. b ≢ b'\n') value (b'\r' ∷ []) l (omega arith, tt)) n.same_name
    ∙ ap (λ i. some (line_place i name value)) (omega arith)
find_line-behind (suc fuel) payload key name value rest (line ∷ others) k e o n l f =
    let more = joined others ++ (name ++ behind_name value rest) in
    let d : drop k payload ≡ line ++ (b'\n' ∷ more) =
      e ∙ append_assoc line (b'\n' ∷ joined others) (name ++ behind_name value rest) in
    let size = length-append line (b'\n' ∷ joined others) in
    skip_line fuel payload key line more k d o.0.0 o.0.1
    ∙ find_line-behind fuel payload key name value rest others (k + length line + 1)
        (drop_line payload line more k d) o.1 n l (omega arith)
    ∙ ap (λ i. some (line_place i name value)) (omega arith)
