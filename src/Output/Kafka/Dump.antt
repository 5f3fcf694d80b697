-- ===== src/Output/Kafka/Dump.antt =====
-- output/kafka.go: what the functions on payloads read from the text of a message.
use traffic.Base.Encoding.{All-append}
use traffic.Base.Outcome.{ok, slice-take-drop}
use traffic.Base.{
  ◌+◌, true, List, [], ◌∷◌, ◌++◌, append_assoc, map, some, ◌≡◌, refl, sym, ap, ◌∙◌, arith, length,
  take, length-append, drop-append_ge, drop-length-append, take-length-append,
}
use traffic.FileInput.Records.{joined}
use traffic.Http.Header.Change.{headed, headers_start, header_value-headed}
use traffic.Http.Header.Found.{IsValue, IsName, AreOthers, behind_name}
use traffic.Http.Header.{header_value}
use traffic.Http.Path.Title.{titled, titled-append, behind-titled, next_at-titled}
use traffic.Http.Path.{path}
use traffic.Http.Search.{Bytes, codes}
use traffic.Http.Title.{has_request_title}
use traffic.Output.Kafka.{KafkaMessage, header_lines, dump_request, dump}
use traffic.Packet.{HdrError}
use traffic.Payload.Meta.{Lacks, index_byte-append, split-append, split-Lacks}
use traffic.Payload.{payload_body, payload_meta}

-- The fields of the first line can be told apart.
pub record HasWords (m : KafkaMessage) : Type 0 where
  pub type_word : Lacks b' ' m.req_type
  pub id_word : Lacks b' ' m.req_id
  pub ts_word : Lacks b' ' m.req_ts
  pub type_line : Lacks b'\n' m.req_type
  pub id_line : Lacks b'\n' m.req_id
  pub ts_line : Lacks b'\n' m.req_ts

-- the first line without its end
first_line : KafkaMessage → Bytes
first_line m = m.req_type ++ (b' ' ∷ (m.req_id ++ (b' ' ∷ m.req_ts)))

dump-first_line : (m : KafkaMessage) → dump m ≡ first_line m ++ (b'\n' ∷ dump_request m)
unfolding dump first_line
dump-first_line m = simp append_assoc

first_line-Lacks : (m : KafkaMessage) → HasWords m → Lacks b'\n' (first_line m)
unfolding first_line
first_line-Lacks m h =
    All-append _ m.req_type _ h.type_line
      (omega arith, All-append _ m.req_id _ h.id_line (omega arith, h.ts_line))

payload_body-dump : (m : KafkaMessage) → HasWords m → payload_body (dump m) ≡ dump_request m
unfolding payload_body
payload_body-dump m h =
    rw
      (
        dump-first_line m,
        index_byte-append (first_line m) (dump_request m) b'\n' (first_line-Lacks m h),
        payload_body,
        dump-first_line m,
      )
      (drop-append_ge 1 (first_line m) (b'\n' ∷ dump_request m))

payload_meta-dump :
    (m : KafkaMessage) → HasWords m → payload_meta (dump m) ≡ m.req_type ∷ m.req_id ∷ m.req_ts ∷ []
unfolding payload_meta
payload_meta-dump m h =
    rw
      (
        dump-first_line m,
        index_byte-append (first_line m) (dump_request m) b'\n' (first_line-Lacks m h),
        payload_meta,
        take-length-append (first_line m) (b'\n' ∷ dump_request m),
      )
      (unfold first_line in
        split-append m.req_type _ b' ' h.type_word
        ∙ ap (◌∷◌ m.req_type) (
            split-append m.req_id m.req_ts b' ' h.id_word
            ∙ ap (◌∷◌ m.req_id) (split-Lacks m.req_ts b' ' h.ts_word)))

-- a header as a line without its line feed
abbrev pub header_line : Bytes × Bytes → Bytes
header_line (key, value) = key ++ (b':' ∷ b' ' ∷ (value ++ (b'\r' ∷ [])))

header_lines-split :
    (before after : List (Bytes × Bytes)) (name value : Bytes)
    → header_lines (before ++ ((name, value) ∷ after))
      ≡ joined (map header_line before) ++ (name ++ behind_name value (header_lines after))
unfolding header_lines joined
header_lines-split [] after name value = refl
header_lines-split ((k, v) ∷ before) after name value =
    rw (header_lines-split before after name value) (simp append_assoc)

path-titled :
    (method p rest : Bytes)
    → Lacks b' ' method
    → Lacks b' ' p
    → has_request_title (titled method p rest) ≡ true
    → path {E = HdrError} (titled method p rest) ≡ ok p
unfolding path
path-titled method p rest one_word no_space h =
    let start = method ++ (b' ' ∷ []) in
    let l = length-append start (p ++ (b' ' ∷ rest)) in
    let k = length-append p (b' ' ∷ rest) in
    rw
      (
        h,
        behind-titled method p rest one_word no_space,
        next_at-titled method p rest one_word no_space,
        titled-append method p rest one_word no_space,
        slice-take-drop {E = HdrError} (start ++ (p ++ (b' ' ∷ rest))) (length start)
            (length start + length p) (omega arith) (omega arith),
        drop-length-append start (p ++ (b' ' ∷ rest)),
      )
      (ap ok
        (ap (λ n. take n (p ++ (b' ' ∷ rest))) (omega arith) ∙ take-length-append p (b' ' ∷ rest)))

-- the first line of the request, with its end
unfoldable pub title : KafkaMessage → Bytes
title m =
    m.req_method ++ (b' ' ∷ (m.req_url ++ (b' ' ∷ (codes "HTTP/1.1" ++ (b'\r' ∷ b'\n' ∷ [])))))

-- The request can be told from what is no request, and its title from the headers.
pub record HasTitle (m : KafkaMessage) : Type 0 where
  pub method_word : Lacks b' ' m.req_method
  pub url_word : Lacks b' ' m.req_url
  pub is_title : has_request_title (dump_request m) ≡ true
  pub headers_behind : headers_start (dump_request m) ≡ some (length (title m))

path-dump_request :
    (m : KafkaMessage) → HasTitle m → path {E = HdrError} (dump_request m) ≡ ok m.req_url
unfolding dump_request
path-dump_request m t = path-titled m.req_method m.req_url _ t.method_word t.url_word t.is_title

dump_request-headed :
    (m : KafkaMessage) (before after : List (Bytes × Bytes)) (name value : Bytes)
    → m.req_headers ≡ before ++ ((name, value) ∷ after)
    → dump_request m
      ≡ headed
          (title m)
          (map header_line before)
          name
          value
          (header_lines after ++ (b'\r' ∷ b'\n' ∷ m.req_body))
unfolding dump_request title
dump_request-headed m before after name value e =
    rw (e, header_lines-split before after name value) (simp append_assoc)

-- Of the text of a message with a header, the first of its name, whose value is one line without spaces
-- about it: the fields of the first line, the path and the header are read back, where the fields are
-- words and the request behind them has a title.
pub header_value-dump :
    (m : KafkaMessage) (before after : List (Bytes × Bytes)) (key name value : Bytes)
    → HasWords m
    → HasTitle m
    → m.req_headers ≡ before ++ ((name, value) ∷ after)
    → AreOthers key (map header_line before)
    → IsName key name
    → Lacks b'\n' value
    → IsValue value
    → (payload_meta (dump m) ≡ m.req_type ∷ m.req_id ∷ m.req_ts ∷ [])
      × (path {E = HdrError} (payload_body (dump m)) ≡ ok m.req_url)
      × (header_value {E = HdrError} (payload_body (dump m)) key ≡ ok value)
header_value-dump m before after key name value w t e others is_name one v =
    let rest = header_lines after ++ (b'\r' ∷ b'\n' ∷ m.req_body) in
    let shape = dump_request-headed m before after name value e in
    (
      payload_meta-dump m w,
      rw (payload_body-dump m w) (path-dump_request m t),
      rw (payload_body-dump m w, shape)
          (header_value-headed (title m) (map header_line before) key name rest others is_name value
            (sym (ap headers_start shape) ∙ t.headers_behind) one v),
    )
