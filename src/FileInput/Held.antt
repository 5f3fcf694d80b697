-- ===== src/FileInput/Held.antt =====
-- input/input_file.go: readers in front of recorded requests, of several files.
use mathlib.Core.List.{Permᴰ}
use mathlib.Core.List.Permᴰ
use mathlib.Core.Path.{subst}
use mathlib.Core.Option.{some-injective}
use traffic.Base.Encoding.{ℤ, decimal, All, All-append}
use traffic.Base.Outcome.{ok}
use traffic.Base.{
  ℕ, zero, suc, Bool, true, false, List, [], ◌∷◌, ◌++◌, Option, none, some, length, set, get_elem?,
  ◌≡◌, refl, sym, ap, ◌∙◌, arith,
}
use traffic.Http.Search.{Bytes}
use traffic.Packet.{HdrError}
use traffic.FileInput.{FileReader, less, read_payload}
use traffic.FileInput.Order.{NotBefore, IsClosed, not_less_trans}
use traffic.Output.Files.Entries.{Entry, IsEntry, entry_payload}
use traffic.Output.Files.ReadBack.{records, read_payload-recorded, read_payload-last}

-- A reader is in front of the payloads of a list of entries, or at its end.
abbrev pub Holds : (Bytes → ℤ) → Option FileReader → List Entry → Type 0
Holds parse_int none [] = Unit
Holds parse_int none (m ∷ ms) = ⊥
Holds parse_int (some f) [] = f.is_open ≡ false
Holds parse_int (some f) (m ∷ ms) =
    (f.is_open ≡ true)
    × (f.timestamp ≡ parse_int (decimal m.timing))
    × (f.body ≡ entry_payload m)
    × (f.unread ≡ records ms)

abbrev pub HoldsEach : (Bytes → ℤ) → List (Option FileReader) → List (List Entry) → Type 0
HoldsEach parse_int [] [] = Unit
HoldsEach parse_int [] (ms ∷ mss) = ⊥
HoldsEach parse_int (r ∷ rs) [] = ⊥
HoldsEach parse_int (r ∷ rs) (ms ∷ mss) = Holds parse_int r ms × HoldsEach parse_int rs mss

-- The payload that is read is the first one, and the reader is in front of the others then.
pub read_payload-Holds :
    (parse_int : Bytes → ℤ) (f : FileReader) (m : Entry) (ms : List Entry)
    → All IsEntry ms
    → Holds parse_int (some f) (m ∷ ms)
    → (g : FileReader) × (read_payload {E = HdrError} parse_int f ≡ ok (g, entry_payload m))
      × Holds parse_int (some g) ms
unfolding records
read_payload-Holds parse_int f m [] v h = (
  record f { unread = []; is_open = false },
  read_payload-last parse_int f h.3
      ∙ ap (λ b. ok (record f { unread = []; is_open = false }, b)) h.2,
  refl,
)
read_payload-Holds parse_int f m (n ∷ ms) v h =
    let g : FileReader = record f {
      unread = records ms;
      body = entry_payload n;
      timestamp = parse_int (decimal n.timing);
    } in
    (
      g,
      read_payload-recorded parse_int f n (records ms) v.0 h.3 ∙ ap (λ b. ok (g, b)) h.2,
      (h.0, refl, refl, refl),
    )

-- The entries of all files, one file after the other.
unfoldable pub all_entries : List (List Entry) → List Entry
all_entries [] = []
all_entries (ms ∷ mss) = ms ++ all_entries mss

-- The time that the input reads of a record.
abbrev pub entry_time : (Bytes → ℤ) → Entry → ℤ
entry_time parse_int m = parse_int (decimal m.timing)

-- The second entry is not earlier than the first.
abbrev pub NotEarlier : (Bytes → ℤ) → Entry → Entry → Type 0
NotEarlier parse_int m n = less (entry_time parse_int n) (entry_time parse_int m) ≡ false

-- No entry of a list is earlier than one in front of it.
abbrev pub InOrder : (Bytes → ℤ) → List Entry → Type 0
InOrder parse_int [] = Unit
InOrder parse_int (m ∷ ms) = All (NotEarlier parse_int m) ms × InOrder parse_int ms

pub true-ne-false : (b : Bool) → b ≡ true → b ≡ false → ⊥
true-ne-false b h k = ground arith

-- The readers are at their ends only where no entries are left.
pub at_ends :
    (parse_int : Bytes → ℤ) (rs : List (Option FileReader)) (mss : List (List Entry))
    → HoldsEach parse_int rs mss
    → All IsClosed rs
    → all_entries mss ≡ []
unfolding all_entries
at_ends parse_int [] [] h c = refl
at_ends parse_int [] (ms ∷ mss) h c = absurd h
at_ends parse_int (r ∷ rs) [] h c = absurd h
at_ends parse_int (none ∷ rs) ([] ∷ mss) h c = at_ends parse_int rs mss h.1 c.1
at_ends parse_int (none ∷ rs) ((m ∷ ms) ∷ mss) h c = absurd h.0
at_ends parse_int (some r ∷ rs) ([] ∷ mss) h c = at_ends parse_int rs mss h.1 c.1
at_ends parse_int (some r ∷ rs) ((m ∷ ms) ∷ mss) h c = absurd (true-ne-false r.is_open h.0.0 c.0)

-- An open reader of the list is in front of the entries of its file.
pub held :
    (parse_int : Bytes → ℤ) (rs : List (Option FileReader)) (mss : List (List Entry)) (k : ℕ)
    (r : FileReader)
    → HoldsEach parse_int rs mss
    → get_elem? rs k ≡ some (some r)
    → (ms : List Entry) × (get_elem? mss k ≡ some ms) × Holds parse_int (some r) ms
held parse_int [] mss k r h e = absurd (cc)
held parse_int (q ∷ rs) [] k r h e = absurd h
held parse_int (q ∷ rs) (ms ∷ mss) zero r h e =
    (ms, refl, subst (λ o. Holds parse_int o ms) (some-injective _ _ e) h.0)
held parse_int (q ∷ rs) (ms ∷ mss) (suc k) r h e = held parse_int rs mss k r h.1 e

pub HoldsEach-set :
    (parse_int : Bytes → ℤ) (rs : List (Option FileReader)) (mss : List (List Entry)) (k : ℕ)
    (g : FileReader) (ms : List Entry)
    → HoldsEach parse_int rs mss
    → Holds parse_int (some g) ms
    → HoldsEach parse_int (set rs k (some g)) (set mss k ms)
HoldsEach-set parse_int [] [] k g ms h l = tt
HoldsEach-set parse_int [] (ns ∷ mss) k g ms h l = absurd h
HoldsEach-set parse_int (q ∷ rs) [] k g ms h l = absurd h
HoldsEach-set parse_int (q ∷ rs) (ns ∷ mss) zero g ms h l = (l, h.1)
HoldsEach-set parse_int (q ∷ rs) (ns ∷ mss) (suc k) g ms h l =
    (h.0, HoldsEach-set parse_int rs mss k g ms h.1 l)

pub All-set :
    {A : Type 0} (P : A → Type 0) (xs : List A) (k : ℕ) (v : A)
    → All P xs
    → P v
    → All P (set xs k v)
All-set P [] k v h p = tt
All-set P (x ∷ xs) zero v h p = (p, h.1)
All-set P (x ∷ xs) (suc k) v h p = (h.0, All-set P xs k v h.1 p)

pub All-get_elem? :
    {A : Type 0} (P : A → Type 0) (xs : List A) (k : ℕ) (v : A)
    → All P xs
    → get_elem? xs k ≡ some v
    → P v
All-get_elem? P [] k v h e = absurd (cc)
All-get_elem? P (x ∷ xs) zero v h e = subst P (some-injective _ _ e) h.0
All-get_elem? P (x ∷ xs) (suc k) v h e = All-get_elem? P xs k v h.1 e

-- Taking the first entry of one file leaves the others.
pub taken-perm :
    (mss : List (List Entry)) (k : ℕ) (m : Entry) (ms : List Entry)
    → get_elem? mss k ≡ some (m ∷ ms)
    → Permᴰ (m ∷ all_entries (set mss k ms)) (all_entries mss)
unfolding all_entries
taken-perm [] k m ms e = absurd (cc)
taken-perm (ns ∷ mss) zero m ms e =
    subst (λ l. Permᴰ (m ∷ (ms ++ all_entries mss)) (l ++ all_entries mss))
      (sym (some-injective _ _ e)) (Permᴰ.refl _)
taken-perm (ns ∷ mss) (suc k) m ms e =
    Permᴰ.trans (Permᴰ.symm (Permᴰ.middle m ns (all_entries (set mss k ms))))
      (Permᴰ.append_left ns (taken-perm mss k m ms e))

pub length-Permᴰ : {A : Type 0} {xs ys : List A} → Permᴰ xs ys → length xs ≡ length ys
length-Permᴰ Permᴰ.nil = refl
length-Permᴰ (Permᴰ.cons e p) = ap suc (length-Permᴰ p)
length-Permᴰ (Permᴰ.swap e f) = refl
length-Permᴰ (Permᴰ.trans p q) = length-Permᴰ p ∙ length-Permᴰ q

pub All-map :
    {A : Type 0} (P Q : A → Type 0) (xs : List A) → ((x : A) → P x → Q x) → All P xs → All Q xs
All-map P Q [] f h = tt
All-map P Q (x ∷ xs) f h = (f x h.0, All-map P Q xs f h.1)

-- No entry is earlier than the first one of the chosen reader.
pub none_earlier :
    (parse_int : Bytes → ℤ) (rs : List (Option FileReader)) (mss : List (List Entry))
    (r : FileReader) (m : Entry)
    → HoldsEach parse_int rs mss
    → All (InOrder parse_int) mss
    → r.timestamp ≡ entry_time parse_int m
    → All (NotBefore r) rs
    → All (NotEarlier parse_int m) (all_entries mss)
unfolding all_entries
none_earlier parse_int [] [] r m h o t n = tt
none_earlier parse_int [] (ms ∷ mss) r m h o t n = absurd h
none_earlier parse_int (q ∷ rs) [] r m h o t n = absurd h
none_earlier parse_int (none ∷ rs) ([] ∷ mss) r m h o t n =
    none_earlier parse_int rs mss r m h.1 o.1 t n.1
none_earlier parse_int (none ∷ rs) ((k ∷ ks) ∷ mss) r m h o t n = absurd h.0
none_earlier parse_int (some q ∷ rs) ([] ∷ mss) r m h o t n =
    none_earlier parse_int rs mss r m h.1 o.1 t n.1
none_earlier parse_int (some q ∷ rs) ((k ∷ ks) ∷ mss) r m h o t n =
    let first : NotEarlier parse_int m k =
      ap (less (entry_time parse_int k)) (sym t)
      ∙ ap (λ x. less x r.timestamp) (sym h.0.1)
      ∙ n.0 h.0.0 in
    (
      first,
      All-append (NotEarlier parse_int m) ks (all_entries mss)
          (All-map (NotEarlier parse_int k) (NotEarlier parse_int m) ks
            (λ x l.
              not_less_trans (entry_time parse_int x) (entry_time parse_int k)
                (entry_time parse_int m) l first)
            o.0.0)
          (none_earlier parse_int rs mss r m h.1 o.1 t n.1),
    )
