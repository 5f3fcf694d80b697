-- ===== src/Http/State.antt =====
-- proto/proto.go: `HasFullPayload`, which decides whether the packets hold a whole message.
use traffic.Base.Outcome.{Outcome, ok, ◌>>=◌}
use traffic.Base.{
  ℕ, ◌+◌, ◌^◌, Bool, true, false, not, ◌&&◌, ◌||◌, List, [], ◌∷◌, none, some, ltb, leb, ◌==◌,
  if◌then◌else◌, length,
}
use traffic.Http.Header.{header_value}
use traffic.Http.Search.{
  Bytes, codes, index, equal, has_suffix, empty_line, mime_headers_start_pos, mime_headers_end_pos,
}
use traffic.Http.Title.{ato_i, has_title}

-- `HTTPState`; the header start -1 is 0 here, since it is only compared with 1
pub record HttpState : Type 0 where
  pub body : ℕ
  pub header_start : ℕ
  pub header_end : ℕ
  pub header_parsed : Bool
  pub has_full : Bool
  pub is_chunked : Bool
  pub body_len : ℕ
  pub has_trailer : Bool
  pub continue100 : Bool

abbrev pub new_state : HttpState
new_state = record {
  body = 0;
  header_start = 0;
  header_end = 0;
  header_parsed = false;
  has_full = false;
  is_chunked = false;
  body_len = 0;
  has_trailer = false;
  continue100 = false;
}

-- the first loop looks at the first payload alone
unfoldable pub find_start : HttpState → Bytes → HttpState
find_start state first =
    if ltb state.header_start 1
    then record state {
      header_start = elim (mime_headers_start_pos first) [ none ↦ 0 | some p ↦ p ];
    }
    else state

-- the loop for the end of the headers, over several payloads
unfoldable pub find_end : ℕ → HttpState → List Bytes → HttpState
find_end pos state [] = state
find_end pos state (p ∷ payloads) =
    let rest = find_end (pos + length p) state payloads in
    elim (mime_headers_end_pos p) [
      | none ↦ rest
      | some e ↦ record state { header_end = pos + e; body = pos + e }
    ]

-- `> 0` of an int of 64 bits
abbrev pub is_positive : ℕ → Bool
is_positive n = ltb 0 n && ltb n (2 ^ 63)

unfoldable pub total_length : List Bytes → ℕ
total_length [] = 0
total_length (p ∷ payloads) = length p + total_length payloads

unfoldable pub get_last : Bytes → List Bytes → Bytes
get_last p [] = p
get_last p (q ∷ payloads) = get_last q payloads

-- The tests behind the headers; `bodyLen` is `total - state.Body`.
unfoldable pub check_body : HttpState → ℕ → Bytes → HttpState × Bool
check_body state total last =
    if state.is_chunked
    then (if leb total state.body
        then (state, false)
        else if state.has_trailer
        then (state, has_suffix last empty_line)
        else if has_suffix last (codes "0\r\n\r\n")
        then (record state { has_full = true }, true)
        else (state, false))
    else (state, state.body_len + state.body == total)

module _ {E : Type 0} where
  -- the framing that one payload's headers give
  unfoldable pub read_framing : HttpState → Bytes → Outcome E HttpState
  read_framing state p = do
    coding ← header_value p (codes "Transfer-Encoding")
    if ltb 0 (length coding) && elim (index p (codes "chunked")) [ none ↦ false | some i ↦ ltb 0 i ]
        then (do
          trailer ← header_value p (codes "Trailer")
          ok (record state { is_chunked = true; has_trailer = ltb 0 (length trailer) }))
        else do
          content ← header_value p (codes "Content-Length")
          ok (record state { body_len = (ato_i content 10).0 })

  -- one payload of the loop over the headers
  unfoldable pub read_payload : HttpState → Bytes → Outcome E HttpState
  read_payload state p = do
    framed ← read_framing state p
    expect ← header_value p (codes "Expect")
    ok (record framed { continue100 = equal expect (codes "100-continue") || framed.continue100 })

  unfoldable pub read_headers : ℕ → HttpState → List Bytes → Outcome E HttpState
  read_headers pos state [] = ok state
  read_headers pos state (p ∷ payloads) = read_payload state p >>= λ s.
      let all_read = is_positive s.body_len || leb s.body (pos + length p) in
      let rest = read_headers (pos + length p) s payloads in
      if all_read then ok (record s { header_parsed = true }) else rest

  -- `HasFullPayload`: the state that the message keeps, and the answer
  unfoldable pub has_full_payload : HttpState → List Bytes → Outcome E (HttpState × Bool)
  has_full_payload state [] = ok (state, false)
  has_full_payload state (first ∷ payloads) =
      if not (has_title first)
      then ok (state, false)
      else (let s = find_start state first in
          if ltb s.header_start 1
          then ok (s, false)
          else (let t =
                if ltb s.body 1 || ltb s.header_end 1 then find_end 0 s (first ∷ payloads) else s in
              if ltb t.header_end 1 then ok (t, false) else do
                u ← if t.header_parsed then ok t else read_headers 0 t (first ∷ payloads)
                ok (check_body u (total_length (first ∷ payloads)) (get_last first payloads))))
