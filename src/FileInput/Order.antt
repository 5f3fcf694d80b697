-- ===== src/FileInput/Order.antt =====
-- input/input_file.go: of the open readers, the next is one with the smallest timestamp.
use mathlib.Core.Path.{subst}
use traffic.Base.Encoding.{ℤ, pos, negsuc, All}
use traffic.Base.{
  Bool, true, false, List, [], ◌∷◌, Option, none, some, ◌≡◌, refl, sym, ◌∙◌, inl, inr, arith,
  if◌then◌else◌, Bool-cases,
}
use traffic.FileInput.{FileReader, less, next_from, next_reader}

-- The entry is not a reader that is open and has a smaller timestamp.
abbrev pub NotBefore : FileReader → Option FileReader → Type 0
NotBefore r none = Unit
NotBefore r (some q) = q.is_open ≡ true → less q.timestamp r.timestamp ≡ false

abbrev pub IsClosed : Option FileReader → Type 0
IsClosed none = Unit
IsClosed (some q) = q.is_open ≡ false

-- What is chosen of a list of readers.
abbrev pub Chosen : List (Option FileReader) → Option FileReader → Type 0
Chosen rs none = All IsClosed rs
Chosen rs (some r) = (r.is_open ≡ true) × All (NotBefore r) rs

less_irrefl : (a : ℤ) → less a a ≡ false
unfolding less
less_irrefl (pos m) = ground arith
less_irrefl (negsuc m) = ground arith

less_after : (q b r : ℤ) → less q b ≡ true → less q r ≡ false → less b r ≡ false
unfolding less
less_after (pos q) (pos b) (pos r) h k = ground arith
less_after (pos q) (pos b) (negsuc r) h k = ground arith
less_after (pos q) (negsuc b) (pos r) h k = ground arith
less_after (pos q) (negsuc b) (negsuc r) h k = ground arith
less_after (negsuc q) (pos b) (pos r) h k = ground arith
less_after (negsuc q) (pos b) (negsuc r) h k = ground arith
less_after (negsuc q) (negsuc b) (pos r) h k = ground arith
less_after (negsuc q) (negsuc b) (negsuc r) h k = ground arith

pub not_less_trans : (q b r : ℤ) → less q b ≡ false → less b r ≡ false → less q r ≡ false
unfolding less
not_less_trans (pos q) (pos b) (pos r) h k = ground arith
not_less_trans (pos q) (pos b) (negsuc r) h k = ground arith
not_less_trans (pos q) (negsuc b) (pos r) h k = ground arith
not_less_trans (pos q) (negsuc b) (negsuc r) h k = ground arith
not_less_trans (negsuc q) (pos b) (pos r) h k = ground arith
not_less_trans (negsuc q) (pos b) (negsuc r) h k = ground arith
not_less_trans (negsuc q) (negsuc b) (pos r) h k = ground arith
not_less_trans (negsuc q) (negsuc b) (negsuc r) h k = ground arith

if_true : {A : Type 0} (c : Bool) (x y : A) → c ≡ true → (if c then x else y) ≡ x
if_true c x y h = ground arith

if_false : {A : Type 0} (c : Bool) (x y : A) → c ≡ false → (if c then x else y) ≡ y
if_false c x y h = ground arith

-- What becomes of the best reader so far.
record Least (b : FileReader) (rs : List (Option FileReader)) (o : Option FileReader) : Type 0 where
  reader : FileReader
  found : o ≡ some reader
  is_open : reader.is_open ≡ true
  not_after : less b.timestamp reader.timestamp ≡ false
  least : All (NotBefore reader) rs

next_from-Least :
    (b : FileReader) (rs : List (Option FileReader))
    → b.is_open ≡ true
    → Least b rs (next_from (some b) rs)
unfolding next_from
next_from-Least b [] h = record {
  reader = b;
  found = refl;
  is_open = h;
  not_after = less_irrefl b.timestamp;
  least = tt;
}
next_from-Least b (none ∷ rs) h =
    let l = next_from-Least b rs h in
    record {
      reader = l.reader;
      found = l.found;
      is_open = l.is_open;
      not_after = l.not_after;
      least = (tt, l.least);
    }
next_from-Least b (some q ∷ rs) h = elim (Bool-cases q.is_open) [
  | inr c ↦
      let l = next_from-Least b rs h in
      subst (λ x. Least b (some q ∷ rs) (next_from (some x) rs)) (sym (if_false q.is_open _ b c))
        (record {
          reader = l.reader;
          found = l.found;
          is_open = l.is_open;
          not_after = l.not_after;
          least = (λ o. absurd (ground arith), l.least);
        })
  | inl o ↦ elim (Bool-cases (less q.timestamp b.timestamp)) [
    | inl e ↦
        let l = next_from-Least q rs o in
        subst (λ x. Least b (some q ∷ rs) (next_from (some x) rs))
          (sym (if_true q.is_open _ b o ∙ if_true (less q.timestamp b.timestamp) q b e))
          (record {
            reader = l.reader;
            found = l.found;
            is_open = l.is_open;
            not_after = less_after q.timestamp b.timestamp l.reader.timestamp e l.not_after;
            least = (λ _. l.not_after, l.least);
          })
    | inr e ↦
        let l = next_from-Least b rs h in
        subst (λ x. Least b (some q ∷ rs) (next_from (some x) rs))
          (sym (if_true q.is_open _ b o ∙ if_false (less q.timestamp b.timestamp) q b e))
          (record {
            reader = l.reader;
            found = l.found;
            is_open = l.is_open;
            not_after = l.not_after;
            least = (
              λ _. not_less_trans q.timestamp b.timestamp l.reader.timestamp e l.not_after,
              l.least,
            );
          })
  ]
]

none_in_front :
    (rs : List (Option FileReader)) (o : Option FileReader) → Chosen rs o → Chosen (none ∷ rs) o
none_in_front rs none h = (tt, h)
none_in_front rs (some r) h = (h.0, (tt, h.1))

closed_in_front :
    (q : FileReader) (rs : List (Option FileReader)) (o : Option FileReader)
    → q.is_open ≡ false
    → Chosen rs o
    → Chosen (some q ∷ rs) o
closed_in_front q rs none c h = (c, h)
closed_in_front q rs (some r) c h = (h.0, (λ o. absurd (ground arith), h.1))

Chosen-Least :
    (q : FileReader) (rs : List (Option FileReader)) (o : Option FileReader)
    → Least q rs o
    → Chosen (some q ∷ rs) o
Chosen-Least q rs o l = rw l.found (l.is_open, (λ _. l.not_after, l.least))

next_from-Chosen : (rs : List (Option FileReader)) → Chosen rs (next_from none rs)
unfolding next_from
next_from-Chosen [] = tt
next_from-Chosen (none ∷ rs) = none_in_front rs (next_from none rs) (next_from-Chosen rs)
next_from-Chosen (some q ∷ rs) = elim (Bool-cases q.is_open) [
  | inl o ↦
      subst (λ x. Chosen (some q ∷ rs) (next_from x rs)) (sym (if_true q.is_open (some q) none o))
        (Chosen-Least q rs (next_from (some q) rs) (next_from-Least q rs o))
  | inr c ↦
      subst (λ x. Chosen (some q ∷ rs) (next_from x rs)) (sym (if_false q.is_open (some q) none c))
        (closed_in_front q rs (next_from none rs) c (next_from-Chosen rs))
]

-- The next reader is an open one, no other open one has a smaller timestamp; and there is none only
-- when no reader is open.
pub next_reader-Chosen : (rs : List (Option FileReader)) → Chosen rs (next_reader rs)
unfolding next_reader
next_reader-Chosen rs = next_from-Chosen rs
