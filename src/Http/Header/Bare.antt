-- ===== src/Http/Header/Bare.antt =====
-- proto/proto.go: a header without a value, whose line ends in a line feed alone.
use traffic.Base.Outcome.{panic}
use traffic.Base.{
  ℕ, zero, suc, ◌+◌, ◌-◌, ◌<◌, List, [], ◌∷◌, ◌++◌, append_assoc, some, ◌≡◌, refl, ap, ◌∙◌, arith,
  length, drop, length-append, drop-length-append,
}
use traffic.FileInput.Records.{joined, length-joined}
use traffic.Http.Header.{Place, header, header_value, set_header, delete_header, find_line}
use traffic.Http.Header.Change.{headers_start}
use traffic.Http.Header.Edit.{trim-panics}
use traffic.Http.Header.Found.{IsName, AreOthers}
use traffic.Http.Header.Line.{drop_line, skip_line, found_line}
use traffic.Http.Search.{Bytes}
use traffic.Packet.{HdrError}

-- the place of the value, which ends one byte in front of the line end
bare_place : ℕ → Bytes → Place
bare_place k name = record {
  start = k;
  end_at = k + length (name ++ (b':' ∷ []));
  value_start = k + length name + 1;
  value_stop = k + length (name ++ (b':' ∷ [])) - 1;
}

find_line-bare :
    (fuel : ℕ) (payload key name rest : Bytes) (others : List Bytes) (k : ℕ)
    → drop k payload ≡ joined others ++ (name ++ (b':' ∷ b'\n' ∷ rest))
    → AreOthers key others
    → IsName key name
    → length others < fuel
    → find_line fuel payload key k ≡ some (bare_place (k + length (joined others)) name)
unfolding joined bare_place
find_line-bare zero payload key name rest others k e o n f = absurd (omega arith)
find_line-bare (suc fuel) payload key name rest [] k e o n f =
    found_line fuel payload key name [] rest k e n.one_line n.no_colon tt n.same_name
    ∙ ap (λ i. some (bare_place i name)) (omega arith)
find_line-bare (suc fuel) payload key name rest (line ∷ others) k e o n f =
    let more = joined others ++ (name ++ (b':' ∷ b'\n' ∷ rest)) in
    let d : drop k payload ≡ line ++ (b'\n' ∷ more) =
      e ∙ append_assoc line (b'\n' ∷ joined others) (name ++ (b':' ∷ b'\n' ∷ rest)) in
    let size = length-append line (b'\n' ∷ joined others) in
    skip_line fuel payload key line more k d o.0.0 o.0.1
    ∙ find_line-bare fuel payload key name rest others (k + length line + 1)
        (drop_line payload line more k d) o.1 n (omega arith)
    ∙ ap (λ i. some (bare_place i name)) (omega arith)

-- A payload in which a line feed stands right behind the name of a header and its colon, behind the lines
-- of other headers: reading, setting or deleting the header panics.
pub header-panics :
    (front : Bytes) (others : List Bytes) (key name rest new : Bytes)
    → AreOthers key others
    → IsName key name
    → headers_start (front ++ (joined others ++ (name ++ (b':' ∷ b'\n' ∷ rest))))
      ≡ some (length front)
    → let payload = front ++ (joined others ++ (name ++ (b':' ∷ b'\n' ∷ rest))) in
      (header_value {E = HdrError} payload key ≡ panic)
      × (set_header {E = HdrError} payload key new ≡ panic)
      × (delete_header {E = HdrError} payload key ≡ panic)
unfolding header_value set_header delete_header header
header-panics front others key name rest new o n start =
    let more = joined others ++ (name ++ (b':' ∷ b'\n' ∷ rest)) in
    let payload = front ++ more in
    let l1 = length-append front more in
    let l2 = length-append (joined others) (name ++ (b':' ∷ b'\n' ∷ rest)) in
    let l3 = length-append name (b':' ∷ b'\n' ∷ rest) in
    let l4 = length-joined others in
    let l5 = length-append name (b':' ∷ []) in
    let k = length front + length (joined others) in
    let found =
      find_line-bare (length payload) payload key name rest others (length front)
        (drop-length-append front more) o n (omega arith) in
    let early : (bare_place k name).value_stop < (bare_place k name).value_start =
      unfold bare_place in omega arith in
    let e : header {E = HdrError} payload key ≡ panic =
      rw (header, start, found) (trim-panics payload (bare_place k name) early) in
    (rw (header_value, e) refl, rw (set_header, e) refl, rw (delete_header, e) refl)
