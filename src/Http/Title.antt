-- ===== src/Http/Title.antt =====
-- proto/proto.go: the first line of a request or a response.
use traffic.Base.{
  ℕ, ◌+◌, ◌-◌, ◌*◌, ◌%◌, ◌^◌, Bool, true, false, not, ◌&&◌, ◌||◌, List, [], ◌∷◌, none, some, ltb,
  leb, ◌==◌, if◌then◌else◌, length, take, drop, get_or,
}
use traffic.Http.Search.{Bytes, codes, index, equal, count, crlf}
use traffic.Payload.{index_byte}

-- the value of a byte in `hexTable`
unfoldable pub hex_value : ℕ → ℕ
hex_value c =
    if leb b'0' c && leb c b'9'
    then c - b'0'
    else if leb b'A' c && leb c b'F'
    then c - b'A' + 10
    else if leb b'a' c && leb c b'f'
    then c - b'a' + 10
    else 0

-- `atoI`: the number that the digits before the first bad byte spell, and whether there is none.
-- An int is its pattern of 64 bits.
unfoldable pub ato_i_onto : ℕ → Bytes → ℕ → ℕ × Bool
unfolding hex_value
ato_i_onto num [] base = (num, true)
ato_i_onto num (c ∷ s) base =
    let rest = ato_i_onto ((num * base + hex_value c) % 2 ^ 64) s base in
    if ltb 127 c
    then (num, false)
    else if leb base (hex_value c) || (hex_value c == 0 && not (c == b'0'))
    then (num, false)
    else rest

unfoldable pub ato_i : Bytes → ℕ → ℕ × Bool
unfolding ato_i_onto
ato_i s base = ato_i_onto 0 s base

-- `http.ParseHTTPVersion` reports HTTP/1.0 or HTTP/1.1
unfoldable pub is_http_1 : Bytes → Bool
unfolding equal
is_http_1 vers = equal vers (codes "HTTP/1.1") || equal vers (codes "HTTP/1.0")

-- `http.StatusText(status) != ""`
unfoldable pub has_status_text : ℕ → Bool
has_status_text s =
    (leb 100 s && leb s 103)
    || (leb 200 s && leb s 208)
    || s == 226
    || (leb 300 s && leb s 305)
    || s == 307
    || s == 308
    || (leb 400 s && leb s 418)
    || (leb 421 s && leb s 426)
    || s == 428
    || s == 429
    || s == 431
    || s == 451
    || (leb 500 s && leb s 508)
    || s == 510
    || s == 511

abbrev pub methods : List Bytes
methods =
    codes "CONNECT"
    ∷ codes "DELETE"
    ∷ codes "GET"
    ∷ codes "HEAD"
    ∷ codes "OPTIONS"
    ∷ codes "PATCH"
    ∷ codes "POST"
    ∷ codes "PUT"
    ∷ codes "TRACE"
    ∷ []

unfoldable pub is_method : Bytes → List Bytes → Bool
unfolding equal
is_method m [] = false
is_method m (x ∷ xs) = equal m x || is_method m xs

-- `Method`; a payload with no space has the method `nil`
unfoldable pub method : Bytes → Bytes
method payload = elim (index_byte payload b' ') [ none ↦ [] | some i ↦ take i payload ]

abbrev pub min_request_count : ℕ
min_request_count = 16

abbrev pub min_response_count : ℕ
min_response_count = 14

abbrev pub version_len : ℕ
version_len = 8

-- The reads are in range by the length test; `get_or` has its default for no index that is read.
unfoldable pub has_response_title : Bytes → Bool
unfolding index is_http_1 ato_i has_status_text
has_response_title payload =
    if ltb (length payload) min_response_count then false else elim (index payload crlf) [
      | none ↦ false
      | some title_len ↦
          is_http_1 (take version_len payload)
          && get_or payload version_len 0 == b' '
          && (ato_i (take 3 (drop 9 payload)) 10).1
          && has_status_text (ato_i (take 3 (drop 9 payload)) 10).0
          && (get_or payload 12 0 == b' ' || get_or payload 12 0 == b'\r')
    ]

-- what `HasRequestTitle` asks of the title behind the method
unfoldable pub has_version : Bytes → Bytes → ℕ → Bool
unfolding is_http_1
has_version payload m title_len = elim (index_byte (drop (length m + 1) payload) b' ') [
  | none ↦ false
  | some path ↦
      is_http_1 (take (title_len - (path + length m + 2)) (drop (path + length m + 2) payload))
]

unfoldable pub has_request_title : Bytes → Bool
unfolding index count method is_method has_version
has_request_title payload =
    if ltb (length payload) min_request_count then false else elim (index payload crlf) [
      | none ↦ false
      | some title_len ↦
          count b' ' (take title_len payload) == 2
          && is_method (method payload) methods
          && has_version payload (method payload) title_len
    ]

unfoldable pub has_title : Bytes → Bool
unfolding has_request_title has_response_title
has_title payload = has_request_title payload || has_response_title payload
