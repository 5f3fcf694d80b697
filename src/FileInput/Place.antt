-- ===== src/FileInput/Place.antt =====
-- input/input_file.go: the place of the next reader among the readers.
use mathlib.Core.Path.{subst}
use traffic.Base.{
  ℕ, suc, ◌+◌, Bool, true, false, List, [], ◌∷◌, Option, none, some, get_elem?, ◌≡◌, refl, sym, ap,
  ◌∙◌, arith, if◌then◌else◌,
}
use traffic.FileInput.{FileReader, less, next_from, next_reader, place_from}
use traffic.FileInput.Order.{Chosen, next_reader-Chosen}

-- the reader of a place, without the place
unfoldable pub reader_at : Option (ℕ × FileReader) → Option FileReader
reader_at none = none
reader_at (some x) = some x.1

reader_at-if :
    (c : Bool) (x : ℕ × FileReader)
    → reader_at (if c then some x else none) ≡ (if c then some x.1 else none)
unfolding reader_at
reader_at-if true x = refl
reader_at-if false x = refl

choice_reader :
    (c d : Bool) (x y : ℕ × FileReader)
    → (if c then (if d then x else y) else y).1 ≡ (if c then (if d then x.1 else y.1) else y.1)
choice_reader true true x y = refl
choice_reader true false x y = refl
choice_reader false d x y = refl

-- `nextReader` and the search for its place choose the same reader.
place_from-next :
    (n : ℕ) (best : Option (ℕ × FileReader)) (rs : List (Option FileReader))
    → reader_at (place_from n best rs) ≡ next_from (reader_at best) rs
unfolding place_from next_from reader_at
place_from-next n best [] = refl
place_from-next n best (none ∷ rs) = place_from-next (n + 1) best rs
place_from-next n none (some r ∷ rs) =
    place_from-next (n + 1) (if r.is_open then some (n, r) else none) rs
    ∙ ap (λ o. next_from o rs) (reader_at-if r.is_open (n, r))
place_from-next n (some (m, b)) (some r ∷ rs) =
    place_from-next (n + 1) _ rs
    ∙ ap (λ q. next_from (some q) rs)
        (choice_reader r.is_open (less r.timestamp b.timestamp) (n, r) (m, b))

-- A place is one of the list.
abbrev pub IsPlace : List (Option FileReader) → Option (ℕ × FileReader) → Type 0
IsPlace all none = Unit
IsPlace all (some x) = get_elem? all x.0 ≡ some (some x.1)

-- The list `rs` is what is left of `all` behind its first n entries.
abbrev IsRest : List (Option FileReader) → ℕ → List (Option FileReader) → Type 0
IsRest all n rs = (k : ℕ) → get_elem? rs k ≡ get_elem? all (n + k)

IsRest-tail :
    (all : List (Option FileReader)) (n : ℕ) (o : Option FileReader) (rs : List (Option FileReader))
    → IsRest all n (o ∷ rs)
    → IsRest all (n + 1) rs
IsRest-tail all n o rs h k =
    let e : n + suc k ≡ (n + 1) + k = omega arith in h (suc k) ∙ ap (get_elem? all) e

rest_head :
    (all : List (Option FileReader)) (n : ℕ) (o : Option FileReader) (rs : List (Option FileReader))
    → IsRest all n (o ∷ rs)
    → get_elem? all n ≡ some o
rest_head all n o rs h = let e : n ≡ n + 0 = omega arith in ap (get_elem? all) e ∙ sym (h 0)

IsPlace-if :
    (all : List (Option FileReader)) (c : Bool) (x : ℕ × FileReader)
    → IsPlace all (some x)
    → IsPlace all (if c then some x else none)
IsPlace-if all true x h = h
IsPlace-if all false x h = tt

IsPlace-choice :
    (all : List (Option FileReader)) (c d : Bool) (x y : ℕ × FileReader)
    → IsPlace all (some x)
    → IsPlace all (some y)
    → IsPlace all (some (if c then (if d then x else y) else y))
IsPlace-choice all true true x y h k = h
IsPlace-choice all true false x y h k = k
IsPlace-choice all false d x y h k = k

place_from-IsPlace :
    (all : List (Option FileReader)) (n : ℕ) (best : Option (ℕ × FileReader))
    (rs : List (Option FileReader))
    → IsPlace all best
    → IsRest all n rs
    → IsPlace all (place_from n best rs)
unfolding place_from
place_from-IsPlace all n best [] h r = h
place_from-IsPlace all n best (none ∷ rs) h r =
    place_from-IsPlace all (n + 1) best rs h (IsRest-tail all n none rs r)
place_from-IsPlace all n none (some q ∷ rs) h r =
    place_from-IsPlace all (n + 1) (if q.is_open then some (n, q) else none) rs
      (IsPlace-if all q.is_open (n, q) (rest_head all n (some q) rs r))
      (IsRest-tail all n (some q) rs r)
place_from-IsPlace all n (some (m, b)) (some q ∷ rs) h r =
    place_from-IsPlace all (n + 1) _ rs
      (IsPlace-choice all q.is_open (less q.timestamp b.timestamp) (n, q) (m, b)
        (rest_head all n (some q) rs r) h)
      (IsRest-tail all n (some q) rs r)

-- The place that is searched for: it is one of the list, and its reader is the next one.
pub next-IsPlace :
    (rs : List (Option FileReader))
    → Chosen rs (reader_at (place_from 0 none rs)) × IsPlace rs (place_from 0 none rs)
unfolding next_reader reader_at
next-IsPlace rs = (
  subst (Chosen rs) (sym (place_from-next 0 none rs)) (next_reader-Chosen rs),
  place_from-IsPlace rs 0 none rs tt (λ k. ap (get_elem? rs) (omega arith)),
)
