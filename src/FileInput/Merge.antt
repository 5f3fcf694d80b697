-- ===== src/FileInput/Merge.antt =====
-- input/input_file.go: the payloads of several files are handed on in the order of their times.
use mathlib.Core.List.{Permᴰ}
use mathlib.Core.List.Permᴰ
use mathlib.Core.Path.{subst}
use traffic.Base.Encoding.{ℤ, pos, decimal, All}
use traffic.Base.Outcome.{ok, ◌>>=◌}
use traffic.Base.Perm.{All-Permᴰ}
use traffic.Base.{
  ℕ, zero, suc, ◌<◌, true, List, [], ◌∷◌, map, Option, none, some, length, set, get_elem?, ◌≡◌,
  refl, sym, ap, ◌∙◌, arith, inl, inr, ◌⊎◌, ◌≢◌,
}
use traffic.Http.Search.{Bytes}
use traffic.Packet.{HdrError}
use traffic.FileInput.{FileReader, place_from, read_payload, new_reader, open_readers, emit}
use traffic.FileInput.Order.{Chosen, IsClosed}
use traffic.Output.Files.Entries.{Entry, IsEntry, entry_payload, parse_next-recorded}
use traffic.Output.Files.ReadBack.{records}
use traffic.FileInput.Place.{reader_at, IsPlace, next-IsPlace}
use traffic.FileInput.Held.{
  Holds, HoldsEach, read_payload-Holds, true-ne-false, at_ends, held, HoldsEach-set, All-set,
  All-get_elem?, taken-perm, length-Permᴰ, none_earlier, all_entries, NotEarlier, InOrder,
}

-- What the input hands on of the files that the readers are in front of.
record Merged (parse_int : Bytes → ℤ) (fuel : ℕ) (rs : List (Option FileReader)) (all : List Entry)
    : Type 0 where
  merged : List Entry
  given : emit {E = HdrError} parse_int fuel rs ≡ ok (map entry_payload merged)
  every : Permᴰ merged all
  in_order : InOrder parse_int merged

emit-none :
    (parse_int : Bytes → ℤ) (fuel : ℕ) (rs : List (Option FileReader))
    → place_from 0 none rs ≡ none
    → emit {E = HdrError} parse_int (suc fuel) rs ≡ ok []
unfolding emit
emit-none parse_int fuel rs e = rw (emit, e) refl

emit-some :
    (parse_int : Bytes → ℤ) (fuel : ℕ) (rs : List (Option FileReader)) (k : ℕ) (r g : FileReader)
    (s : Bytes) (rest : List Bytes)
    → place_from 0 none rs ≡ some (k, r)
    → read_payload {E = HdrError} parse_int r ≡ ok (g, s)
    → emit {E = HdrError} parse_int fuel (set rs k (some g)) ≡ ok rest
    → emit {E = HdrError} parse_int (suc fuel) rs ≡ ok (s ∷ rest)
unfolding emit
emit-some parse_int fuel rs k r g s rest e f h = rw (emit, e, f, h) refl

-- the entry list of an open reader is not empty
some_entry :
    (parse_int : Bytes → ℤ) (r : FileReader) (ms : List Entry)
    → r.is_open ≡ true
    → Holds parse_int (some r) ms
    → (m : Entry) × (ns : List Entry) × (ms ≡ m ∷ ns)
some_entry parse_int r [] o h = absurd (true-ne-false r.is_open o h)
some_entry parse_int r (m ∷ ms) o h = (m, ms, refl)

Place-cases :
    (o : Option (ℕ × FileReader)) → (o ≡ none) ⊎ ((k : ℕ) × (r : FileReader) × (o ≡ some (k, r)))
Place-cases none = inl refl
Place-cases (some (k, r)) = inr (k, r, refl)

emit-Merged :
    (parse_int : Bytes → ℤ) (fuel : ℕ) (rs : List (Option FileReader)) (mss : List (List Entry))
    → HoldsEach parse_int rs mss
    → All (All IsEntry) mss
    → All (InOrder parse_int) mss
    → length (all_entries mss) < fuel
    → Merged parse_int fuel rs (all_entries mss)
unfolding reader_at
emit-Merged parse_int zero rs mss h v o l = absurd (omega arith)
emit-Merged parse_int (suc fuel) rs mss h v o l = elim (Place-cases (place_from 0 none rs)) [
  | inl e ↦
      let c : All IsClosed rs = subst (λ x. Chosen rs (reader_at x)) e (next-IsPlace rs).0 in
      record {
        merged = [];
        given = emit-none parse_int fuel rs e;
        every = subst (Permᴰ []) (sym (at_ends parse_int rs mss h c)) Permᴰ.nil;
        in_order = tt;
      }
  | inr (k, r, e) ↦
      let c : Chosen rs (some r) = subst (λ x. Chosen rs (reader_at x)) e (next-IsPlace rs).0 in
      let p : get_elem? rs k ≡ some (some r) = subst (IsPlace rs) e (next-IsPlace rs).1 in
      let (ms, found, at_ms) = held parse_int rs mss k r h p in
      let (m, ns, is_cons) = some_entry parse_int r ms c.0 at_ms in
      let found_m : get_elem? mss k ≡ some (m ∷ ns) = found ∙ ap some is_cons in
      let at_m : Holds parse_int (some r) (m ∷ ns) =
        subst (Holds parse_int (some r)) is_cons at_ms in
      let entries = All-get_elem? (All IsEntry) mss k (m ∷ ns) v found_m in
      let ordered = All-get_elem? (InOrder parse_int) mss k (m ∷ ns) o found_m in
      let (g, read, at_ns) = read_payload-Holds parse_int r m ns entries.1 at_m in
      let taken = taken-perm mss k m ns found_m in
      let rest =
        emit-Merged parse_int fuel (set rs k (some g)) (set mss k ns)
          (HoldsEach-set parse_int rs mss k g ns h at_ns)
          (All-set (All IsEntry) mss k ns v entries.1)
          (All-set (InOrder parse_int) mss k ns o ordered.1) (omega (arith, length-Permᴰ taken)) in
      let earliest =
        All-Permᴰ (NotEarlier parse_int m) (Permᴰ.symm taken)
          (none_earlier parse_int rs mss r m h o at_m.1 c.1) in
      record {
        merged = m ∷ rest.merged;
        given = emit-some parse_int fuel rs k r g (entry_payload m) _ e read rest.given;
        every = Permᴰ.trans (Permᴰ.cons refl rest.every) taken;
        in_order =
            (All-Permᴰ (NotEarlier parse_int m) (Permᴰ.symm rest.every) earliest.1, rest.in_order);
      }
]

new_reader-records :
    (parse_int : Bytes → ℤ) (m : Entry) (ms : List Entry)
    → IsEntry m
    → new_reader {E = HdrError} parse_int (some (records (m ∷ ms)))
      ≡ ok (
          some (record {
            unread = records ms;
            body = entry_payload m;
            is_open = true;
            timestamp = parse_int (decimal m.timing);
          }))
unfolding records new_reader
new_reader-records parse_int m ms v =
    let f : FileReader = record {
      unread = records (m ∷ ms);
      body = [];
      is_open = true;
      timestamp = pos 0;
    } in
    rw (new_reader, parse_next-recorded parse_int f m (records ms) v refl) refl

-- the readers of files of entries, each of one at least
open_readers-HoldsEach :
    (parse_int : Bytes → ℤ) (mss : List (List Entry))
    → All (All IsEntry) mss
    → All (λ ms. ms ≢ []) mss
    → (rs : List (Option FileReader)) × (open_readers {E = HdrError} parse_int
          (map (λ ms. some (records ms)) mss)
        ≡ ok rs)
      × HoldsEach parse_int rs mss
unfolding open_readers
open_readers-HoldsEach parse_int [] v n = ([], refl, tt)
open_readers-HoldsEach parse_int ([] ∷ mss) v n = absurd (n.0 refl)
open_readers-HoldsEach parse_int ((m ∷ ms) ∷ mss) v n =
    let (rs, e, h) = open_readers-HoldsEach parse_int mss v.1 n.1 in
    let f : FileReader = record {
      unread = records ms;
      body = entry_payload m;
      is_open = true;
      timestamp = parse_int (decimal m.timing);
    } in
    (
      some f ∷ rs,
      rw (open_readers, new_reader-records parse_int m ms v.0.0, e) refl,
      ((refl, refl, refl, refl), h),
    )

-- Several files of recorded requests, each in the order of its times: with fuel for more rounds than
-- there are requests, the input hands on each request of the files once, a request never before one
-- of an earlier time, and ends.
pub emit-merged :
    (parse_int : Bytes → ℤ) (fuel : ℕ) (mss : List (List Entry))
    → All (All IsEntry) mss
    → All (λ ms. ms ≢ []) mss
    → All (InOrder parse_int) mss
    → length (all_entries mss) < fuel
    → (merged : List Entry) × ((open_readers {E = HdrError} parse_int
            (map (λ ms. some (records ms)) mss)
          >>= emit parse_int fuel)
        ≡ ok (map entry_payload merged))
      × Permᴰ merged (all_entries mss)
      × InOrder parse_int merged
emit-merged parse_int fuel mss v n o l =
    let (rs, e, h) = open_readers-HoldsEach parse_int mss v n in
    let m = emit-Merged parse_int fuel rs mss h v o l in
    (m.merged, rw e m.given, m.every, m.in_order)
