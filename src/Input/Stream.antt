-- ===== src/Input/Stream.antt =====
-- input/input_http.go: the messages that the input gives, its statistics and its end.
use mathlib.Core.Path.{subst}
use traffic.Base.Encoding.{ℤ, All, hex, hex-All, big_endian, big_endian-All, All-append}
use traffic.Base.Outcome.{ok, IfOk, IfOk-if, IfOk-bind, IfOk-bind_of, IfOk-and, Returns}
use traffic.Base.{
  ℕ, zero, suc, ◌+◌, ◌≤◌, ◌<◌, Bool, true, false, List, [], ◌∷◌, ◌++◌, Option, none, some, ◌==◌,
  if◌then◌else◌, length, ◌≡◌, ◌≢◌, refl, sym, ap, ◌∙◌, arith, inl, inr, Bool-cases, leb,
  length-append,
}
use traffic.Http.Search.{Bytes}
use traffic.Input.{
  HttpInput, MessageStats, OutputMessage, received, message_type, uuid_of, plugin_reader, add_stats,
  close, sub64,
}
use traffic.Message.{Store, Message, is_incoming, message_uuid, message_data, packet_data}
use traffic.Output.Files.{
  World, FileOutput, FileError, http_protocol, note_message, update_name, plugin_writer,
}
use traffic.Output.Files.Written.{CanClose, HasAdded, recorded, plugin_writer-HasAdded}
use traffic.Packet.{Packet, Dir, ip2int}
use traffic.Payload.{payload_header}
use traffic.Payload.Meta.{Lacks}

-- calls of `Close` in a row
unfoldable pub close_times : ℕ → HttpInput → HttpInput
close_times zero i = i
close_times (suc n) i = close_times n (close i)

close-closed : (i : HttpInput) → (close i).closed ≡ true
unfolding close
close-closed i = elim (Bool-cases i.closed) [
  | inl e ↦ rw (e, close) refl
  | inr e ↦ rw (e, close) refl
]

close_same : (i : HttpInput) → i.closed ≡ true → close i ≡ i
unfolding close
close_same i h = elim (Bool-cases i.closed) [
  | inl e ↦
      ap
        (λ b.
          if b then i else record i { cancels = i.cancels + 1; quits = i.quits + 1; closed = true })
        h
  | inr e ↦ absurd cc
]

close_times-closed : (n : ℕ) (i : HttpInput) → i.closed ≡ true → close_times n i ≡ i
unfolding close_times close
close_times-closed zero i h = refl
close_times-closed (suc n) i h = ap (close_times n) (close_same i h) ∙ close_times-closed n i h

close_open :
    (i : HttpInput)
    → i.closed ≡ false
    → close i ≡ record i { cancels = i.cancels + 1; quits = i.quits + 1; closed = true }
unfolding close
close_open i h =
    ap
      (λ b.
        if b then i else record i { cancels = i.cancels + 1; quits = i.quits + 1; closed = true })
      h

-- However often an open input is closed, the listener is stopped once and the channel is closed once,
-- a second close of which would panic.
pub close_times_once :
    (n : ℕ) (i : HttpInput)
    → i.closed ≡ false
    → ((close_times (suc n) i).quits ≡ i.quits + 1)
      × ((close_times (suc n) i).cancels ≡ i.cancels + 1)
      × ((close_times (suc n) i).closed ≡ true)
unfolding close_times
close_times_once n i h =
    let e = close_times-closed n (close i) (close-closed i) in
    let o = close_open i h in
    (ap (λ j. j.quits) (e ∙ o), ap (λ j. j.cancels) (e ∙ o), ap (λ j. j.closed) (e ∙ o))

-- the statistics of messages one after the other
unfoldable pub add_each_stats : HttpInput → List MessageStats → HttpInput
add_each_stats i [] = i
add_each_stats i (s ∷ ss) = add_each_stats (add_stats i s) ss

add_stats-bounds :
    (i : HttpInput) (s : MessageStats)
    → length i.message_stats ≤ 10000
    → (0 < length (add_stats i s).message_stats) × (length (add_stats i s).message_stats ≤ 10000)
unfolding add_stats
add_stats-bounds i s h = elim (Bool-cases (leb 10000 (length i.message_stats))) [
  | inl e ↦ rw (e, add_stats) (omega arith, omega arith)
  | inr e ↦
      let l = length-append i.message_stats (s ∷ []) in
      rw (e, add_stats) (omega arith, ground arith)
]

-- From no more than 10000 kept statistics, an input that has added at least one keeps between one and
-- 10000, however many messages come.
pub add_each_stats-bounds :
    (i : HttpInput) (s : MessageStats) (ss : List MessageStats)
    → length i.message_stats ≤ 10000
    → (0 < length (add_each_stats i (s ∷ ss)).message_stats)
      × (length (add_each_stats i (s ∷ ss)).message_stats ≤ 10000)
unfolding add_each_stats
add_each_stats-bounds i s [] h = add_stats-bounds i s h
add_each_stats-bounds i s (t ∷ ss) h =
    add_each_stats-bounds (add_stats i s) t ss (add_stats-bounds i s h).1

between-Lacks : (c : ℕ) (s : Bytes) → c < b'0' → All (λ b. (b'0' ≤ b) × (b ≤ b'f')) s → Lacks c s
between-Lacks c [] h k = tt
between-Lacks c (b ∷ s) h k = let (l, u) = k.0 in (omega arith, between-Lacks c s h k.1)

hex-Lacks : (c : ℕ) (s : Bytes) → c < b'0' → All (λ b. b < 256) s → Lacks c (hex s)
hex-Lacks c s h k = between-Lacks c (hex s) h (hex-All s k)

message_uuid-Lacks :
    (c : ℕ) (d : Dir) (p : Packet) → c < b'0' → IfOk {E = FileError} (Lacks c) (message_uuid d p)
unfolding message_uuid
message_uuid-Lacks c d p h =
    let id : (n a : ℕ) → Lacks c (hex (big_endian 8 n ++ big_endian 4 a)) = λ n a.
      hex-Lacks c (big_endian 8 n ++ big_endian 4 a) h (
        All-append (λ b. b < 256) (big_endian 8 n) (big_endian 4 a) (big_endian-All 8 n)
          (big_endian-All 4 a)) in
    IfOk-if (Lacks c) (is_incoming d) _ _
      (λ e. IfOk-bind (Lacks c) (ip2int p.src_ip) _ λ s. id _ p.ack)
      (λ e. IfOk-bind (Lacks c) (ip2int p.dst_ip) _ λ s. id _ p.seq)

uuid_of-Lacks :
    (c : ℕ) (s : Store) (d : Dir) (rs : List ℕ)
    → c < b'0'
    → IfOk {E = FileError} (Lacks c) (uuid_of s d rs)
unfolding uuid_of
uuid_of-Lacks c s d [] h = tt
uuid_of-Lacks c s d (r ∷ rs) h = message_uuid-Lacks c d (s.packet r) h

-- the header of a message that the input gives
record HasHeader (m : Message) (msg : OutputMessage) : Type 0 where
  uuid : Bytes
  timing : ℤ
  latency : ℤ
  header : msg.meta ≡ payload_header (message_type m) uuid timing latency
  one_line : Lacks b'\n' uuid
  one_word : Lacks b' ' uuid

GivesHeader : Message → HttpInput × Option OutputMessage → Type 0
GivesHeader m (i, none) = Unit
GivesHeader m (i, some msg) = HasHeader m msg

plugin_reader-HasHeader :
    (unix_nano : ℕ → ℤ) (i : HttpInput) (capacity : ℕ) (s : Store) (j : ℕ)
    → IfOk {E = FileError}
        (GivesHeader (s.message j))
        (plugin_reader unix_nano i capacity (received s j))
unfolding plugin_reader GivesHeader
plugin_reader-HasHeader unix_nano i capacity s j =
    let m = s.message j in
    let Q = GivesHeader m in
    let P : Bytes → Type 0 = λ u. Lacks b'\n' u × Lacks b' ' u in
    IfOk-bind Q (message_data (packet_data s m.packets) capacity m.feedback) _ λ body.
      IfOk-bind_of P Q (uuid_of s m.direction m.packets) _
        (IfOk-and (Lacks b'\n') (Lacks b' ') (uuid_of s m.direction m.packets)
          (uuid_of-Lacks b'\n' s m.direction m.packets (omega arith))
          (uuid_of-Lacks b' ' s m.direction m.packets (omega arith)))
        λ uuid (l, w). record {
          uuid = uuid;
          timing = unix_nano m.start;
          latency = sub64 (unix_nano m.end_at) (unix_nano m.start);
          header = refl;
          one_line = l;
          one_word = w;
        }

message_type-incoming : (m : Message) → (message_type m == b'1') ≡ is_incoming m.direction
unfolding message_type
message_type-incoming m = elim (Bool-cases (is_incoming m.direction)) [
  | inl e ↦ rw (e, message_type) refl
  | inr e ↦ rw (e, message_type) refl
]

message_type-ne : (m : Message) (c : ℕ) → c < b'1' → message_type m ≢ c
unfolding message_type
message_type-ne m c h = elim (Bool-cases (is_incoming m.direction)) [
  | inl e ↦ rw (e, message_type) (omega arith)
  | inr e ↦ rw (e, message_type) (omega arith)
]

-- A message that the input gives and the output of requests is handed, where the open file can be closed:
-- unless a file cannot be opened, the file of the current name, which is emptied first unless it is the
-- open one, grows by the header, the data and the separator where the message is incoming, and by nothing
-- where it is not; the other files stay as they are, and as many bytes are reported.
pub plugin_writer-plugin_reader :
    (unix_nano : ℕ → ℤ) (dubbo_record : Bytes → Bytes → Option Bytes × Bool) (i k : HttpInput)
    (capacity : ℕ) (s : Store) (j : ℕ) (msg : OutputMessage) (w : World) (o p : FileOutput)
    → plugin_reader {E = FileError} unix_nano i capacity (received s j) ≡ ok (k, some msg)
    → note_message o msg.meta ≡ ok p
    → CanClose (update_name w p)
    → Returns
        (λ x.
          let added =
            if is_incoming (s.message j).direction then recorded msg.meta msg.body else [] in
          HasAdded (update_name w p) added x.0 × (x.1 ≡ length added))
        (plugin_writer http_protocol dubbo_record w o msg.meta msg.body)
unfolding message_type GivesHeader
plugin_writer-plugin_reader unix_nano dubbo_record i k capacity s j msg w o p e noted closes =
    let m = s.message j in
    let h : HasHeader m msg =
      subst (IfOk (GivesHeader m)) e (plugin_reader-HasHeader unix_nano i capacity s j) in
    let Goal : Bool → Bytes → Type 0 = λ b meta.
      let added = if b then recorded meta msg.body else [] in
      Returns (λ x. HasAdded (update_name w p) added x.0 × (x.1 ≡ length added))
        (plugin_writer http_protocol dubbo_record w o meta msg.body) in
    let meta = payload_header (message_type m) h.uuid h.timing h.latency in
    subst (Goal (is_incoming m.direction)) (sym h.header) (
      subst (λ b. Goal b meta) (message_type-incoming m)
        (plugin_writer-HasAdded dubbo_record w o p (message_type m) h.uuid h.timing h.latency
          msg.body (message_type-ne m b'\n' (omega arith)) h.one_line
          (message_type-ne m b' ' (omega arith)) h.one_word
          (subst (λ t. note_message o t ≡ ok p) h.header noted) closes))
