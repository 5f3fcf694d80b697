-- ===== src/Output/Files/ReadBack.antt =====
-- output/output_file.go and input/input_file.go: the records of a file are read back.
use traffic.Base.Encoding.{ℤ, pos, decimal, All}
use traffic.Base.Outcome.{ok, ◌>>=◌}
use traffic.Base.{
  ℕ, suc, ◌+◌, ◌-◌, ◌≤◌, true, false, List, [], ◌∷◌, ◌++◌, map, none, some, length, ◌≡◌, refl, sym,
  ap, ◌∙◌, arith,
}
use traffic.Http.Search.{Bytes}
use traffic.Packet.{HdrError}
use traffic.Payload.{index_byte}
use traffic.FileInput.{
  FileReader, parse_next, read_payload, new_reader, open_readers, scan, next_line, place_from, emit,
}
use traffic.Output.Files.Written.{recorded}
use traffic.Output.Files.Entries.{Entry, IsEntry, entry_meta, entry_payload, parse_next-recorded}

-- the records of a file
unfoldable pub records : List Entry → Bytes
records [] = []
records (m ∷ ms) = recorded (entry_meta m) m.body ++ records ms

pub read_payload-recorded :
    (parse_int : Bytes → ℤ) (f : FileReader) (m : Entry) (more : Bytes)
    → IsEntry m
    → f.unread ≡ recorded (entry_meta m) m.body ++ more
    → read_payload {E = HdrError} parse_int f
      ≡ ok (
        record f {
          unread = more;
          body = entry_payload m;
          timestamp = parse_int (decimal m.timing);
        },
        f.body,
      )
unfolding read_payload
read_payload-recorded parse_int f m more h e = rw (parse_next-recorded parse_int f m more h e) refl

pub read_payload-last :
    (parse_int : Bytes → ℤ) (f : FileReader)
    → f.unread ≡ []
    → read_payload {E = HdrError} parse_int f
      ≡ ok (record f { unread = []; is_open = false }, f.body)
unfolding read_payload parse_next scan next_line index_byte
read_payload-last parse_int f h = rw (h, read_payload, parse_next, scan, next_line, index_byte) refl

place_open : (f : FileReader) → f.is_open ≡ true → place_from 0 none (some f ∷ []) ≡ some (0, f)
unfolding place_from
place_open f h = rw (h, place_from) refl

place_closed : (f : FileReader) → f.is_open ≡ false → place_from 0 none (some f ∷ []) ≡ none
unfolding place_from
place_closed f h = rw (h, place_from) refl

emit-step :
    (parse_int : Bytes → ℤ) (fuel : ℕ) (f g : FileReader) (s : Bytes) (rest : List Bytes)
    → f.is_open ≡ true
    → read_payload {E = HdrError} parse_int f ≡ ok (g, s)
    → emit {E = HdrError} parse_int fuel (some g ∷ []) ≡ ok rest
    → emit {E = HdrError} parse_int (suc fuel) (some f ∷ []) ≡ ok (s ∷ rest)
unfolding emit
emit-step parse_int fuel f g s rest o r h = rw (emit, place_open f o, r, h) refl

emit-end :
    (parse_int : Bytes → ℤ) (fuel : ℕ) (f : FileReader)
    → f.is_open ≡ false
    → emit {E = HdrError} parse_int (suc fuel) (some f ∷ []) ≡ ok []
unfolding emit
emit-end parse_int fuel f o = rw (emit, place_closed f o) refl

-- a round for each record, one for the last payload and one to see that the file is at its end
rounds : List Entry → ℕ → ℕ
rounds [] fuel = suc (suc fuel)
rounds (m ∷ ms) fuel = suc (rounds ms fuel)

rounds_enough :
    (ms : List Entry) (fuel : ℕ) → length ms + 2 ≤ fuel → (more : ℕ) × (rounds ms more ≡ fuel)
unfolding rounds
rounds_enough [] fuel l = (fuel - 2, omega arith)
rounds_enough (m ∷ ms) fuel l =
    let (more, e) = rounds_enough ms (fuel - 1) (omega arith) in (more, omega arith)

emit-records :
    (parse_int : Bytes → ℤ) (fuel : ℕ) (ms : List Entry) (f : FileReader)
    → All IsEntry ms
    → f.is_open ≡ true
    → f.unread ≡ records ms
    → emit {E = HdrError} parse_int (rounds ms fuel) (some f ∷ [])
      ≡ ok (f.body ∷ map entry_payload ms)
unfolding records rounds
emit-records parse_int fuel [] f h o e =
    emit-step parse_int (suc fuel) f _ f.body [] o (read_payload-last parse_int f e)
      (emit-end parse_int fuel _ refl)
emit-records parse_int fuel (m ∷ ms) f h o e =
    emit-step parse_int (rounds ms fuel) f _ f.body _ o
      (read_payload-recorded parse_int f m (records ms) h.0 e)
      (emit-records parse_int fuel ms _ h.1 o refl)

-- The requests of a file that are recorded with ids of one word and bodies none of whose lines is the
-- marker are read back: the input hands on the header and the body of each, in order, and ends.
pub emit-recorded :
    (parse_int : Bytes → ℤ) (fuel : ℕ) (m : Entry) (ms : List Entry)
    → All IsEntry (m ∷ ms)
    → length ms + 2 ≤ fuel
    → (open_readers {E = HdrError} parse_int (some (records (m ∷ ms)) ∷ []) >>= emit parse_int fuel)
      ≡ ok (map entry_payload (m ∷ ms))
unfolding records open_readers new_reader
emit-recorded parse_int fuel m ms h l =
    let f : FileReader = record {
      unread = records (m ∷ ms);
      body = [];
      is_open = true;
      timestamp = pos 0;
    } in
    let g : FileReader = record f {
      unread = records ms;
      body = entry_payload m;
      timestamp = parse_int (decimal m.timing);
    } in
    let (more, n) = rounds_enough ms fuel l in
    rw (parse_next-recorded parse_int f m (records ms) h.0 refl) (
      ap (λ k. emit parse_int k (some g ∷ [])) (sym n)
      ∙ emit-records parse_int more ms g h.1 refl refl)
