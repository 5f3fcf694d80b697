-- ===== src/Tests/Messages.antt =====
-- Runs of the operations on messages, on HTTP payloads and of the plugins about them.
use traffic.Base.Encoding.{pos}
use traffic.Base.Outcome.{IfOk, ok, panic, Returns, slice}
use traffic.Base.{
  ◌⊎◌, ℕ, Bool, true, false, List, [], ◌∷◌, ◌++◌, none, some, ◌≡◌, ◌↔◌, refl, arith, length,
  if◌then◌else◌, ◌==◌,
}
use traffic.Emitter.Count.{IsCounted, round-IsCounted}
use traffic.Emitter.Pairs.{ids_of, decide_each, filter_each, filter_each-decide_each}
use traffic.Emitter.{Filter, Clock, PluginMessage, round}
use traffic.Http.Header.{Place}
use traffic.Http.Path.Title.{titled, set_path-titled}
use traffic.Http.Path.{path, set_path}
use traffic.Http.Search.{Bytes, codes, has_prefix}
use traffic.Http.Title.{has_title, has_request_title}
use traffic.Limiter.{admitted, admitted-min}
use traffic.Message.Chunks.{IsContiguous, missing_chunk_iff}
use traffic.Message.Order.{IsSorted, IsMessage, add-IsMessage, total_payload, total_lost}
use traffic.Message.{Store, Message, add, missing_chunk}
use traffic.Modifier.{ModifierConfig, IsLetThrough, rewrite, rewrite_branches}
use traffic.Packet.{HdrError, Packet, incoming, lost_bytes}
use traffic.Message.{set_packet, is_unknown}
use traffic.Packet.{message_id}
use traffic.Parser.{process_stored}
use traffic.Parser.Processing.{Begun, process_stored_branches}
use traffic.Parser.{Config, lookup}
use traffic.Payload.{index_byte}
use traffic.Tests.{sample, get}

abbrev pub first : Packet
first = record sample { message_id = 9 }

abbrev second : Packet
second = record sample { seq = 103 }

abbrev pub message : Message
message = record {
  packets = 0 ∷ [];
  feedback = none;
  lost_data = 0;
  size = 3;
  start = 5;
  end_at = 5;
  src_addr = [];
  dst_addr = [];
  direction = incoming;
  timed_out = false;
  truncated = false;
  ip_version = 0;
}

-- a message of one packet, and a packet that comes behind it
abbrev pub packets : Store
packets = record {
  packet = λ r. if r == 0 then first else second;
  packets_used = 2;
  message = λ i. message;
  messages_used = 1;
  table = (9, 0) ∷ [];
  emitted = [];
}

pub packets-IsMessage : (i : ℕ) → IsMessage packets i
unfolding IsSorted total_payload total_lost lost_bytes
packets-IsMessage i = record { sorted = (tt, tt); size_total = refl; lost_total = refl }

add-IsMessage_example : IsMessage (add packets 0 1).0 0
add-IsMessage_example = add-IsMessage packets 0 1 (packets-IsMessage 0)

missing_chunk_iff_example :
    (missing_chunk {E = HdrError} packets (0 ∷ 1 ∷ []) ≡ ok false)
    ↔ IsContiguous packets.packet 0 (1 ∷ [])
unfolding IsSorted
missing_chunk_iff_example =
    missing_chunk_iff packets 0 (1 ∷ []) ((omega arith, tt), (tt, tt))
      (
        record { seq = omega arith; payload = omega arith },
        (record { seq = omega arith; payload = omega arith }, tt),
      )

abbrev pub config : Config
config = record {
  message_expire = 10;
  allow_incomplete = false;
  http = false;
  ports = [];
  ips = [];
}

admitted-min_example :
    admitted
      (record {
        is_file = false;
        limit = pos 2;
        is_percent = false;
        current_rps = 0;
        current_time = 5;
      })
      (6 ∷ 7 ∷ 8 ∷ [])
    ≡ 2
admitted-min_example =
    admitted-min 2 0 5 (6 ∷ 7 ∷ 8 ∷ []) (omega arith)
      (omega arith, (omega arith, (omega arith, tt)))

-- an expression that matches the paths of one length
abbrev of_length : ℕ → Bytes → Bool
of_length n p = length p == n

abbrev rules : ModifierConfig ℕ
rules = record { allowed = []; disallowed = 3 ∷ [] }

abbrev request : Bytes
request = codes "GET /a HTTP/1.1" ++ (b'\r' ∷ b'\n' ∷ codes "a: b")

request-path : path {E = HdrError} request ≡ ok (codes "/a")
unfolding path has_request_title has_prefix index_byte slice
request-path = refl

rewrite_branches_example :
    ((has_request_title request ≡ false)
      × (rewrite {E = HdrError} of_length rules request ≡ ok request))
    ⊎ ((has_request_title request ≡ true)
        × IsLetThrough of_length rules (codes "/a")
        × (rewrite {E = HdrError} of_length rules request ≡ ok request))
    ⊎ ((has_request_title request ≡ true)
        × (¬ IsLetThrough of_length rules (codes "/a"))
        × (rewrite {E = HdrError} of_length rules request ≡ ok []))
rewrite_branches_example = rewrite_branches of_length rules request (codes "/a") request-path

abbrev clock : Clock
clock = record { filtered_at = 1; clean_at = 2; cleaned_at = 3 }

abbrev filter : Filter
filter = record { filtered_count = 1; last_clean_time = 0; filtered_requests = (get, 1) ∷ [] }

filter-IsCounted : IsCounted filter
unfolding IsCounted
filter-IsCounted = omega arith

round-IsCounted_example :
    IfOk {E = HdrError}
      (λ r. IsCounted r.0)
      (round of_length
        (some rules)
        100
        clock
        filter
        (record { meta = codes "1 a 5"; body = request }))
round-IsCounted_example =
    round-IsCounted of_length (some rules) 100 clock filter
      (record { meta = codes "1 a 5"; body = request }) filter-IsCounted

abbrev rest : Bytes
rest = codes "HTTP/1.1" ++ (b'\r' ∷ b'\n' ∷ codes "a: b")

set_path-titled_example :
    set_path {E = HdrError} (titled (codes "GET") (codes "/a") rest) (codes "/bc")
    ≡ ok (titled (codes "GET") (codes "/bc") rest)
unfolding has_title has_prefix index_byte
set_path-titled_example =
    set_path-titled (codes "GET") (codes "/a") rest (omega arith, (omega arith, (omega arith, tt)))
      (omega arith, (omega arith, tt)) (codes "/bc") refl

abbrev place : Place
place = record { start = 0; end_at = 5; value_start = 2; value_stop = 4 }

process_stored_branches_example :
    ((i : ℕ) × (lookup 9 packets.table ≡ some i)
      × (process_stored {E = HdrError} 1 config packets 0 ≡ (
          if is_unknown (packets.message i).direction
          then panic
          else ok (add (set_packet packets 0 first) i 0).0)))
    ⊎ ((lookup 9 packets.table ≡ none)
        × Returns {E = HdrError}
            (Begun (set_packet packets 0 first) 9 0)
            (process_stored 1 config packets 0))
unfolding message_id
process_stored_branches_example = process_stored_branches 0 config packets 0 first 9 refl refl

abbrev answered : List (Clock × (Bytes × PluginMessage))
answered =
    (clock, (codes "a", record { meta = codes "1 a 5"; body = request }))
    ∷ (clock, (get, record { meta = codes "2 b 6"; body = get }))
    ∷ []

filter_each-decide_each_example :
    filter_each {E = HdrError} of_length rules filter answered
    ≡ decide_each of_length rules (ids_of filter) answered
filter_each-decide_each_example = filter_each-decide_each of_length rules filter answered
