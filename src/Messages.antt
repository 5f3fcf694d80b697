-- ===== src/Messages.antt =====
-- message/http.go: the records of HTTP responses. What net/textproto, net/http and gzip read from the
-- data of a message is an argument.
pub mod Version
use traffic.Base.Encoding.{ℤ, pos, negsuc}
use traffic.Base.Outcome.{Outcome, ok, panic, ◌>>=◌, at, slice}
use traffic.Base.{
  ℕ, suc, ◌+◌, Bool, true, false, not, ◌&&◌, ◌||◌, List, [], ◌∷◌, ◌++◌, Option, none, some, ltb,
  leb, ◌==◌, if◌then◌else◌, length, take, drop,
}
use traffic.Http.Search.{Bytes, codes, equal, has_prefix, index}
use traffic.Output.Names.{atoi}
use traffic.Payload.{index_byte}

-- A `Header` is a map from names to values, kept as a list.
abbrev pub Header : Type 0
Header = List (Bytes × List Bytes)

unfoldable pub values_of : Bytes → Header → Option (List Bytes)
unfolding equal
values_of name [] = none
values_of name ((n, vs) ∷ header) =
    let rest = values_of name header in if equal n name then some vs else rest

-- `FileHttpResponseMessage` without its cookie and the time at which it is made
pub record ResponseMessage : Type 0 where
  pub status : Bytes
  pub status_code : ℤ
  pub proto : Bytes
  pub proto_major : ℤ
  pub proto_minor : ℤ
  pub header : Header
  pub body : Bytes
  pub payload_type : Bytes
  pub token : Bytes

-- a number of a version: not negative and not above `Big`
unfoldable pub version_number : Bytes → Option ℤ
unfolding atoi
version_number s = elim (atoi s) [
  | none ↦ none
  | some n ↦ elim n [ pos k ↦ if leb k 1000000 then some (pos k) else none | negsuc k ↦ none ]
]

-- `ParseHTTPVersion` behind its two usual versions, with `none` where it returns false
unfoldable pub version_numbers : Bytes → Option (ℤ × ℤ)
unfolding version_number has_prefix index_byte
version_numbers vers =
    if not (has_prefix vers (codes "HTTP/")) then none else elim (index_byte vers b'.') [
      | none ↦ none
      | some dot ↦ elim (version_number (drop 5 (take dot vers))) [
        | none ↦ none
        | some major ↦ elim (version_number (drop (dot + 1) vers)) [
          | none ↦ none
          | some minor ↦ some (major, minor)
        ]
      ]
    ]

-- `ParseHTTPVersion`
unfoldable pub parse_http_version : Bytes → Option (ℤ × ℤ)
unfolding version_numbers equal
parse_http_version vers =
    if equal vers (codes "HTTP/1.1")
    then some (pos 1, pos 1)
    else if equal vers (codes "HTTP/1.0")
    then some (pos 1, pos 0)
    else version_numbers vers

-- `strings.TrimLeft(s, " ")`
unfoldable pub trim_spaces : Bytes → Bytes
trim_spaces [] = []
trim_spaces (c ∷ s) = let rest = trim_spaces s in if c == b' ' then rest else c ∷ s

-- the code in a status
unfoldable pub code_text : Bytes → Bytes
unfolding index_byte
code_text status = elim (index_byte status b' ') [ none ↦ status | some i ↦ take i status ]

unfoldable pub status_number : Bytes → Option ℤ
unfolding atoi
status_number s =
    if not (length s == 3)
    then none
    else elim (atoi s) [ none ↦ none | some n ↦ elim n [ pos k ↦ some (pos k) | negsuc k ↦ none ] ]

-- the first line of `AssembleHttpResponseData`; `none` where it returns false
unfoldable pub read_status_line : ResponseMessage → Bytes → Option ResponseMessage
unfolding index_byte trim_spaces code_text status_number parse_http_version
read_status_line f line = elim (index_byte line b' ') [
  | none ↦ none
  | some i ↦
      let proto = take i line in
      let status = trim_spaces (drop (i + 1) line) in
      elim (status_number (code_text status)) [
        | none ↦ none
        | some code ↦ elim (parse_http_version proto) [
          | none ↦ none
          | some version ↦ some (record f {
            proto = proto;
            status = status;
            status_code = code;
            proto_major = version.0;
            proto_minor = version.1;
          })
        ]
      ]
]

-- `fixPragmaCacheControl`
unfoldable pub fix_pragma_cache_control : Header → Header
unfolding values_of equal
fix_pragma_cache_control header = elim (values_of (codes "Pragma") header) [
  | none ↦ header
  | some vs ↦ elim vs [
    | [] ↦ header
    | v ∷ others ↦
        if equal v (codes "no-cache")
        then elim (values_of (codes "Cache-Control") header) [
          | none ↦ (codes "Cache-Control", codes "no-cache" ∷ []) ∷ header
          | some cc ↦ header
        ]
        else header
  ]
]

-- `ReadResponseBody`, of the lines that the scanner gives without their ends
unfoldable pub read_response_body : ℕ → ℕ → List Bytes → Bytes
read_response_body i split [] = []
read_response_body i split (line ∷ lines) =
    let rest = read_response_body (i + 1) split lines in if ltb split i then line ++ rest else rest

-- `gunzip` is the reading of a whole gzip stream, which panics where its header is none.
module _ {E : Type 0} (gunzip : Bytes → Outcome E Bytes) where
  -- the body without its encoding; `value[0]` of no value panics
  unfoldable pub decode_body : Header → Bytes → Outcome E Bytes
  unfolding values_of equal
  decode_body header body = elim (values_of (codes "Content-Encoding") header) [
    | none ↦ ok body
    | some vs ↦ do v ← at vs 0; if equal v (codes "gzip") then gunzip body else ok body
  ]

  -- `AssembleHttpResponseData` of the first line, the headers behind it and the lines of the data, the
  -- first two `none` for an error; `none` where it returns false
  unfoldable pub assemble_http_response_data :
      ResponseMessage
      → Option Bytes
      → Option Header
      → List Bytes
      → Bytes
      → Outcome E (Option ResponseMessage)
  unfolding read_status_line fix_pragma_cache_control read_response_body decode_body
  assemble_http_response_data f first mime lines current_id = elim first [
    | none ↦ ok none
    | some line ↦ elim (read_status_line f line) [
      | none ↦ ok none
      | some g ↦ elim mime [
        | none ↦ ok none
        | some header ↦ do
          let fixed = fix_pragma_cache_control header
          body ← decode_body fixed (read_response_body 1 (length fixed + 2) lines)
          ok (
              some (record g {
                header = fixed;
                payload_type = codes "2";
                token = current_id;
                body = body;
              }))
      ]
    ]
  ]

  -- What `http.ReadResponse` gives: the fields of the response that are kept, and its body.
  unfoldable pub new_assemble_http_response_data :
      ResponseMessage
      → Option (ResponseMessage × Bytes × Bytes × Bytes)
      → Outcome E (Option ResponseMessage)
  new_assemble_http_response_data f none = panic
  new_assemble_http_response_data f (some (r, content_type, encoding, body)) =
      let image : Bool = elim (index content_type (codes "image")) [
        | none ↦ false
        | some i ↦ true
      ] in
      let zipped : Bool = elim (index encoding (codes "gzip")) [ none ↦ false | some i ↦ true ] in
      if image then ok none else do
        plain ← if zipped then gunzip body else ok body
        ok (some (record r { body = plain; payload_type = codes "2"; token = f.token }))
