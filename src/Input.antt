-- ===== src/Input.antt =====
-- input/input_http.go: the input of the messages that the listener hands on.
pub mod Ports
pub mod Stream
use traffic.Base.Encoding.{ℤ, pos, negsuc}
use traffic.Base.Outcome.{Outcome, ok, ◌>>=◌, panic}
use traffic.Base.{
  ℕ, zero, suc, ◌+◌, ◌-◌, ◌*◌, ◌%◌, ◌^◌, Bool, true, false, ◌&&◌, ◌||◌, List, [], ◌∷◌, ◌++◌, Option,
  none, some, ltb, leb, ◌==◌, if◌then◌else◌, length,
}
use traffic.Http.Search.{Bytes}
use traffic.Message.{Store, Message, is_incoming, message_data, message_uuid, packet_data}
use traffic.Payload.{payload_header, request_payload, response_payload}
use traffic.Packet.{Dir}
use traffic.Output.Names.{atoi}
use traffic.Payload.{split}

-- The `Stats` of a message that the input keeps.
pub record MessageStats : Type 0 where
  pub lost_data : ℕ
  pub size : ℕ
  pub start : ℕ
  pub end_at : ℕ

-- `HttpInput`: what changes of it. `quits` counts the closes of the channel `quit`, of which a second
-- one panics, and `cancels` the calls that stop the listener.
pub record HttpInput : Type 0 where
  pub stats : Bool
  pub message_stats : List MessageStats
  pub closed : Bool
  pub quits : ℕ
  pub cancels : ℕ

-- an int64 as 64 bits, and back
unfoldable pub to_word : ℤ → ℕ
to_word (pos n) = n % 2 ^ 64
to_word (negsuc n) = 2 ^ 64 - 1 - n % 2 ^ 64

unfoldable pub from_word : ℕ → ℤ
from_word n = if ltb n (2 ^ 63) then pos n else negsuc (2 ^ 64 - 1 - n)

-- `-` of int64
unfoldable pub sub64 : ℤ → ℤ → ℤ
unfolding to_word from_word
sub64 a b = from_word ((to_word a + (2 ^ 64 - to_word b)) % 2 ^ 64)

-- `addStats`
unfoldable pub add_stats : HttpInput → MessageStats → HttpInput
add_stats i s =
    let kept = if leb 10000 (length i.message_stats) then [] else i.message_stats in
    record i { message_stats = kept ++ (s ∷ []) }

-- `Close`
unfoldable pub close : HttpInput → HttpInput
close i =
    if i.closed then i else record i { cancels = i.cancels + 1; quits = i.quits + 1; closed = true }

-- `OutPutMessage`
pub record OutputMessage : Type 0 where
  pub meta : Bytes
  pub body : Bytes

unfoldable pub message_type : Message → ℕ
message_type m = if is_incoming m.direction then request_payload else response_payload

-- What the channels of `PluginReader` give: the end, or a message of the parser's store.
pub data Received : Type 0 where
  quit_closed : Received
  received : Store → ℕ → Received

-- the statistics that are kept of a message
unfoldable pub stats_of : Message → MessageStats
stats_of m = record { lost_data = m.lost_data; size = m.size; start = m.start; end_at = m.end_at }

module _ {E : Type 0} where
  -- `msgTCP.UUID()`, which asks the first packet
  unfoldable pub uuid_of : Store → Dir → List ℕ → Outcome E Bytes
  uuid_of s direction [] = panic
  uuid_of s direction (r ∷ rs) = message_uuid direction (s.packet r)

-- `unix_nano` is `UnixNano` of a time; `capacity` is the capacity of the first packet's payload.
module _ {E : Type 0} (unix_nano : ℕ → ℤ) where
  -- `PluginReader`: the message, or `none` with `ErrorStopped`
  unfoldable pub plugin_reader :
      HttpInput → ℕ → Received → Outcome E (HttpInput × Option OutputMessage)
  unfolding uuid_of message_type add_stats sub64 stats_of
  plugin_reader i capacity quit_closed = ok (i, none)
  plugin_reader i capacity (received s j) = do
    let m = s.message j
    data_read ← message_data (packet_data s m.packets) capacity m.feedback
    uuid ← uuid_of s m.direction m.packets
    let latency = sub64 (unix_nano m.end_at) (unix_nano m.start)
    let msg : OutputMessage = record {
      meta = payload_header (message_type m) uuid (unix_nano m.start) latency;
      body = data_read;
    }
    ok (if i.stats then add_stats i (stats_of m) else i, some msg)

-- `strings.TrimSpace`, of ASCII text
unfoldable pub is_space : ℕ → Bool
is_space c = c == b' ' || (leb 9 c && leb c 13)

unfoldable pub trim_left : Bytes → Bytes
unfolding is_space
trim_left [] = []
trim_left (c ∷ s) = let rest = trim_left s in if is_space c then rest else c ∷ s

unfoldable pub trim_right : Bytes → Bytes
unfolding is_space
trim_right [] = []
trim_right (c ∷ s) = elim (trim_right s) [
  | [] ↦ if is_space c then [] else c ∷ []
  | b ∷ t ↦ c ∷ b ∷ t
]

-- `uint16(port)`
unfoldable pub port_of : ℤ → ℕ
unfolding to_word
port_of i = to_word i % 2 ^ 16

-- the loop over the ports; `none` ends the process
unfoldable pub ports_of : List Bytes → Option (List ℕ)
unfolding port_of trim_left trim_right
ports_of [] = some []
ports_of (s ∷ ss) = elim (atoi (trim_right (trim_left s))) [
  | none ↦ none
  | some i ↦ elim (ports_of ss) [ none ↦ none | some ports ↦ some (port_of i ∷ ports) ]
]

-- the ports of `NewHttpMessage`
unfoldable pub parse_ports : Bytes → Option (List ℕ)
unfolding ports_of
parse_ports [] = some []
parse_ports (c ∷ s) = ports_of (split (c ∷ s) b',')
