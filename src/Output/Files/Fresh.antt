-- ===== src/Output/Files/Fresh.antt =====
-- output/output_file.go: the next file of a series is a new one.
use mathlib.Core.Path.{subst}
use mathlib.Core.List.{Permᴰ}
use traffic.Base.Perm.{All-Permᴰ}
use traffic.Base.Encoding.{ℤ, pos, negsuc, All}
use traffic.Base.{
  zero, suc, ◌+◌, ◌<◌, ◌^◌, true, false, List, [], ◌∷◌, some, ◌==◌, ◌≡◌, ◌≢◌, refl, sym, ap, ◌∙◌,
  arith, lt→ltb,
}
use traffic.FileInput.{less}
use traffic.Http.Equal.{equal_self}
use traffic.Http.Search.{Bytes}
use traffic.Output.Names.{get_file_index, set_file_index, without_index, less_file}
use traffic.Output.Names.Number.{IsInt}
use traffic.Output.Names.Index.{get_file_index-set_file_index}
use traffic.Output.Files.{
  World, FileOutput, get_last, next_index, is_index, file_index, choose_file, chunk_due, fill_in,
  file_pattern, filename,
}

-- No element is less than one before it.
unfoldable pub IsAscending : List Bytes → Type 0
IsAscending [] = Unit
IsAscending (s ∷ ss) = All (λ t. less_file t s ≡ false) ss × IsAscending ss

less_self : (i : ℤ) → less i i ≡ false
unfolding less
less_self (pos n) = ground arith
less_self (negsuc n) = ground arith

less_file_series :
    (s t : Bytes)
    → without_index s ≡ without_index t
    → less_file s t ≡ less (get_file_index s) (get_file_index t)
unfolding less_file
less_file_series s t h = rw (h, equal_self (without_index t)) refl

less_file_self : (s : Bytes) → less_file s s ≡ false
less_file_self s = less_file_series s s refl ∙ less_self (get_file_index s)

get_last-All :
    (P : Bytes → Type 0) (s : Bytes) (ss : List Bytes) → All P (s ∷ ss) → P (get_last s ss)
unfolding get_last
get_last-All P s [] h = h.0
get_last-All P s (t ∷ ts) h = get_last-All P t ts h.1

get_last-IsAscending :
    (s : Bytes) (ss : List Bytes)
    → IsAscending (s ∷ ss)
    → All (λ t. less_file (get_last s ss) t ≡ false) (s ∷ ss)
unfolding get_last IsAscending
get_last-IsAscending s [] h = (less_file_self s, tt)
get_last-IsAscending s (t ∷ ts) h =
    (get_last-All (λ u. less_file u s ≡ false) t ts h.0, get_last-IsAscending t ts h.1)

-- An index below the largest int.
abbrev pub HasNext : ℤ → Type 0
HasNext (pos n) = n + 1 < 2 ^ 63
HasNext (negsuc n) = n < 2 ^ 63

file_index-more :
    (i : ℤ) → HasNext i → (less i (file_index true i) ≡ true) × IsInt (file_index true i)
unfolding file_index is_index next_index less
file_index-more (pos n) h =
    let z : (n + 1 == 2 ^ 63) ≡ false = ground arith in rw z (lt→ltb n (n + 1) (omega arith), h)
file_index-more (negsuc zero) h = (refl, omega arith)
file_index-more (negsuc (suc n)) h = (lt→ltb n (suc n) (omega arith), omega arith)

-- a name with a larger index in the series is none of the names
All-ne :
    (last : Bytes) (i : ℤ) (ms : List Bytes)
    → less (get_file_index last) i ≡ true
    → IsInt i
    → All (λ m. without_index last ≡ without_index m) ms
    → All (λ m. less_file last m ≡ false) ms
    → All (λ m. m ≢ set_file_index last i) ms
All-ne last i [] h k series below = tt
All-ne last i (m ∷ ms) h k series below = (
  λ e.
      let same : get_file_index m ≡ i =
        ap get_file_index e ∙ get_file_index-set_file_index last i k in
      let no : less (get_file_index last) i ≡ false =
        ap (less (get_file_index last)) (sym same)
        ∙ sym (less_file_series last m series.0)
        ∙ below.0 in
      cc,
  All-ne last i ms h k series.1 below.1,
)

-- What sorting leaves: the same names, in order.
pub record IsSortOf (ss ts : List Bytes) : Type 0 where
  pub same : Permᴰ ts ss
  pub ascending : IsAscending ts

-- Where the limit of a chunk is reached, or the output has no name yet, and the files of the pattern are
-- one series, the last of which has an index that another can follow: the file name is none of theirs.
-- Sorting is taken to leave the same names in order.
pub filename-ne :
    (w : World) (o : FileOutput) (s t : Bytes) (ss ts : List Bytes)
    → o.config.append ≡ false
    → chunk_due o ≡ true
    → w.glob (file_pattern w (fill_in w o w.order o.path_template)) ≡ some (s ∷ ss)
    → w.sort (s ∷ ss) ≡ t ∷ ts
    → IsSortOf (s ∷ ss) (t ∷ ts)
    → All (λ m. without_index (get_last t ts) ≡ without_index m) (s ∷ ss)
    → HasNext (get_file_index (get_last t ts))
    → All (λ m. m ≢ filename w o) (s ∷ ss)
unfolding filename choose_file get_last
filename-ne w o s t ss ts append due found sort sorted series next =
    let last = get_last t ts in
    let i = file_index true (get_file_index last) in
    let (more, int) = file_index-more (get_file_index last) next in
    let name : filename w o ≡ set_file_index last i =
      rw (filename, append, found, due, choose_file, sort) refl in
    let below =
      All-Permᴰ (λ m. less_file last m ≡ false) sorted.same
        (get_last-IsAscending t ts sorted.ascending) in
    subst (λ n. All (λ m. m ≢ n) (s ∷ ss)) (sym name) (All-ne last i (s ∷ ss) more int series below)
