-- ===== src/Http/Header/Line.antt =====
-- proto/proto.go: the line of a header is found behind the lines of other headers.
use mathlib.Core.Path.{subst}
use traffic.Base.Encoding.{All-append}
use traffic.Base.{
  ℕ, suc, ◌+◌, ◌-◌, true, false, [], ◌∷◌, ◌++◌, append_assoc, Option, none, some, ◌≡◌, ◌≢◌, refl,
  sym, ap, ◌∙◌, inl, inr, arith, length, take, drop, Option-cases, length-append, drop-drop,
  take-length-append, drop-length-append,
}
use traffic.Http.Header.{find_line}
use traffic.Http.Search.{Bytes, equal_fold}
use traffic.Payload.{index_byte}
use traffic.Payload.Meta.{Lacks, index_byte-append}

-- A line that is no header of the name: it has no colon, or another name in front of the first one.
abbrev pub IsOtherAt : Bytes → Bytes → Option ℕ → Type 0
IsOtherAt name line none = Unit
IsOtherAt name line (some c) = equal_fold (take c line) name ≡ false

abbrev pub IsOther : Bytes → Bytes → Type 0
IsOther name line = IsOtherAt name line (index_byte line b':')

pub drop_behind :
    (payload x y : Bytes) (start : ℕ)
    → drop start payload ≡ x ++ y
    → drop (start + length x) payload ≡ y
drop_behind payload x y start e =
    sym (drop-drop (length x) start payload) ∙ ap (drop (length x)) e ∙ drop-length-append x y

pub drop_line :
    (payload line more : Bytes) (start : ℕ)
    → drop start payload ≡ line ++ (b'\n' ∷ more)
    → drop (start + length line + 1) payload ≡ more
drop_line payload line more start e =
    let n : start + length line + 1 ≡ start + length (line ++ (b'\n' ∷ [])) =
      omega (arith, length-append line (b'\n' ∷ [])) in
    ap (λ k. drop k payload) n
    ∙ drop_behind payload (line ++ (b'\n' ∷ [])) more start
        (e ∙ sym (append_assoc line (b'\n' ∷ []) more))

-- A line of another header is passed over.
pub skip_line :
    (fuel : ℕ) (payload name line more : Bytes) (start : ℕ)
    → drop start payload ≡ line ++ (b'\n' ∷ more)
    → Lacks b'\n' line
    → IsOther name line
    → find_line (suc fuel) payload name start
      ≡ find_line fuel payload name (start + length line + 1)
unfolding find_line
skip_line fuel payload name line more start e one other =
    let at_end : index_byte (drop start payload) b'\n' ≡ some (length line) =
      ap (λ s. index_byte s b'\n') e ∙ index_byte-append line more b'\n' one in
    let taken : take (length line) (drop start payload) ≡ line =
      ap (take (length line)) e ∙ take-length-append line (b'\n' ∷ more) in
    elim (Option-cases (index_byte line b':')) [
      | inl n ↦ rw (find_line, at_end, taken, n) refl
      | inr (c, n) ↦
          let h : equal_fold (take c line) name ≡ false = subst (IsOtherAt name line) n other in
          rw (find_line, at_end, taken, n, taken, h) refl
    ]

-- The line of the header, with what is in front of its value and the value up to the line end.
pub found_line :
    (fuel : ℕ) (payload key name v more : Bytes) (start : ℕ)
    → drop start payload ≡ name ++ (b':' ∷ (v ++ (b'\n' ∷ more)))
    → Lacks b'\n' name
    → Lacks b':' name
    → Lacks b'\n' v
    → equal_fold name key ≡ true
    → find_line (suc fuel) payload key start
      ≡ some (record {
        start = start;
        end_at = start + length (name ++ (b':' ∷ v));
        value_start = start + length name + 1;
        value_stop = start + length (name ++ (b':' ∷ v)) - 1;
      })
unfolding find_line
found_line fuel payload key name v more start e n c l k =
    let line = name ++ (b':' ∷ v) in
    let d : drop start payload ≡ line ++ (b'\n' ∷ more) =
      e ∙ sym (append_assoc name (b':' ∷ v) (b'\n' ∷ more)) in
    let one : Lacks b'\n' line = All-append (λ b. b ≢ b'\n') name (b':' ∷ v) n (omega arith, l) in
    let at_end : index_byte (drop start payload) b'\n' ≡ some (length line) =
      ap (λ s. index_byte s b'\n') d ∙ index_byte-append line more b'\n' one in
    let taken : take (length line) (drop start payload) ≡ line =
      ap (take (length line)) d ∙ take-length-append line (b'\n' ∷ more) in
    rw
      (
        find_line,
        at_end,
        taken,
        index_byte-append name v b':' c,
        taken,
        take-length-append name (b':' ∷ v),
        k,
      )
      refl
