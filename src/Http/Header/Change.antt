-- ===== src/Http/Header/Change.antt =====
-- proto/proto.go: what setting and deleting a header make of a payload.
use traffic.Base.Outcome.{ok, ◌>>=◌}
use traffic.Base.{
  ℕ, ◌+◌, List, [], ◌∷◌, ◌++◌, append_assoc, Option, some, ◌≡◌, refl, sym, ap, ◌∙◌, arith,
  if◌then◌else◌, length, length-append, drop-length-append, drop,
}
use traffic.ByteUtils.{cut, replace}
use traffic.ByteUtils.Splice.{cut-append, replace-append}
use traffic.FileInput.Records.{joined, length-joined}
use traffic.Http.Header.{Place, header, header_value, set_header, delete_header}
use traffic.Http.Header.Found.{
  IsValue, IsName, AreOthers, behind_name, value_place, find_line-behind, trim-value,
}
use traffic.Http.Header.Line.{drop_behind}
use traffic.Http.Search.{Bytes, mime_headers_start_pos}
use traffic.Http.Title.{has_title}
use traffic.Packet.{HdrError}
use traffic.Payload.Meta.{Lacks}

-- A payload with a header, behind the lines of others.
abbrev pub headed : Bytes → List Bytes → Bytes → Bytes → Bytes → Bytes
headed front others name value rest = front ++ (joined others ++ (name ++ behind_name value rest))

-- where the headers of a payload begin: behind its title, if it has one
abbrev pub headers_start : Bytes → Option ℕ
headers_start payload = if has_title payload then mime_headers_start_pos payload else some 0

module _ (front : Bytes) (others : List Bytes) (key name rest : Bytes)
    (are_others : AreOthers key others) (is_name : IsName key name) where
  place_of : Bytes → Place
  place_of value = value_place (length front + length (joined others)) name value

  header-headed :
      (value : Bytes)
      → headers_start (headed front others name value rest) ≡ some (length front)
      → Lacks b'\n' value
      → IsValue value
      → header {E = HdrError} (headed front others name value rest) key
        ≡ ok (value, some (place_of value))
  unfolding header place_of
  header-headed value start one v =
      let payload = headed front others name value rest in
      let more = joined others ++ (name ++ behind_name value rest) in
      let l1 = length-append front more in
      let l2 = length-append (joined others) (name ++ behind_name value rest) in
      let l3 = length-append name (behind_name value rest) in
      let l4 = length-joined others in
      let found =
        find_line-behind (length payload) payload key name value rest others (length front)
          (drop-length-append front more) are_others is_name one (omega arith) in
      let e : drop (length front + length (joined others)) payload
          ≡ name ++ behind_name value rest =
        drop_behind payload (joined others) (name ++ behind_name value rest) (length front)
          (drop-length-append front more) in
      rw (header, start, found)
        (trim-value payload name value rest (length front + length (joined others)) e v)

  -- The value of a header is read.
  pub header_value-headed :
      (value : Bytes)
      → headers_start (headed front others name value rest) ≡ some (length front)
      → Lacks b'\n' value
      → IsValue value
      → header_value {E = HdrError} (headed front others name value rest) key ≡ ok value
  unfolding header_value
  header_value-headed value start one v = rw (header_value, header-headed value start one v) refl

  -- the bytes in front of the value
  before : Bytes
  before = front ++ (joined others ++ (name ++ (b':' ∷ b' ' ∷ [])))

  headed-before :
      (value : Bytes)
      → headed front others name value rest ≡ before ++ (value ++ (b'\r' ∷ b'\n' ∷ rest))
  unfolding before
  headed-before value = simp append_assoc

  length-before : length before ≡ length front + length (joined others) + length name + 2
  unfolding before
  length-before = omega (
    arith,
    length-append front (joined others ++ (name ++ (b':' ∷ b' ' ∷ []))),
    length-append (joined others) (name ++ (b':' ∷ b' ' ∷ [])),
    length-append name (b':' ∷ b' ' ∷ []),
  )

  replaced :
      (value new : Bytes)
      → replace {E = HdrError}
          (headed front others name value rest)
          (place_of value).value_start
          (place_of value).value_stop
          new
        ≡ ok (headed front others name new rest)
  unfolding place_of
  replaced value new =
      let z = b'\r' ∷ b'\n' ∷ rest in
      let n : length front + length (joined others) + length name + 2 ≡ length before =
        sym length-before in
      ap (λ i. replace (headed front others name value rest) i (i + length value) new) n
      ∙ ap (λ s. replace s (length before) (length before + length value) new) (headed-before value)
      ∙ replace-append before value z new
      ∙ ap ok (sym (headed-before new))

  set_header-headed :
      (value new : Bytes)
      → headers_start (headed front others name value rest) ≡ some (length front)
      → Lacks b'\n' value
      → IsValue value
      → set_header {E = HdrError} (headed front others name value rest) key new
        ≡ ok (headed front others name new rest)
  unfolding set_header
  set_header-headed value new start one v =
      rw (set_header, header-headed value start one v) (replaced value new)

  -- The value of a header that is set is replaced, the rest of the payload stays, and the new value is
  -- read from it: where the old and the new value are one line without spaces about it, and the headers
  -- of both payloads begin where the lines of other headers do.
  pub header_value-set_header :
      (value new : Bytes)
      → headers_start (headed front others name value rest) ≡ some (length front)
      → headers_start (headed front others name new rest) ≡ some (length front)
      → Lacks b'\n' value
      → Lacks b'\n' new
      → IsValue value
      → IsValue new
      → (set_header {E = HdrError} (headed front others name value rest) key new
          ≡ ok (headed front others name new rest))
        × ((set_header {E = HdrError} (headed front others name value rest) key new >>= λ payload.
              header_value payload key)
            ≡ ok new)
  unfolding header_value
  header_value-set_header value new start start' one one' v v' =
      let e = set_header-headed value new start one v in
      (e, rw (e, ◌>>=◌) (header_value-headed new start' one' v'))

  -- the line of the header, with its end
  whole_line : Bytes → Bytes
  whole_line value = (name ++ (b':' ∷ b' ' ∷ (value ++ (b'\r' ∷ [])))) ++ (b'\n' ∷ [])

  headed-whole_line :
      (value : Bytes)
      → headed front others name value rest ≡ (front ++ joined others) ++ (whole_line value ++ rest)
  unfolding whole_line
  headed-whole_line value = simp append_assoc

  -- A header that is deleted is cut out with its line end; the rest of the payload stays.
  pub delete_header-headed :
      (value : Bytes)
      → headers_start (headed front others name value rest) ≡ some (length front)
      → Lacks b'\n' value
      → IsValue value
      → delete_header {E = HdrError} (headed front others name value rest) key
        ≡ ok ((front ++ joined others) ++ rest)
  unfolding delete_header place_of
  delete_header-headed value start one v =
      let line = name ++ (b':' ∷ b' ' ∷ (value ++ (b'\r' ∷ []))) in
      let k = length front + length (joined others) in
      let n : k ≡ length (front ++ joined others) =
        omega (arith, length-append front (joined others)) in
      let m : k + length line + 1 ≡ k + length (whole_line value) =
        unfold whole_line in omega (arith, length-append line (b'\n' ∷ [])) in
      rw (delete_header, header-headed value start one v)
        (ap (cut (headed front others name value rest) k) m
          ∙ ap (λ i. cut (headed front others name value rest) i (i + length (whole_line value))) n
          ∙ ap
              (λ s.
                cut s (length (front ++ joined others))
                  (length (front ++ joined others) + length (whole_line value)))
              (headed-whole_line value)
          ∙ cut-append (front ++ joined others) (whole_line value) rest)
