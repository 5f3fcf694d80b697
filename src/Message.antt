-- ===== src/Message.antt =====
-- tcp/tcp_message.go: messages, and the packets that they are put together from. Packets and
-- messages are shared by pointers in the source, so both stand in a store, under numbers.
pub mod Order
pub mod Chunks
pub mod View
pub mod Arrival
use Prim.Native.Nat.{bit_or}
use traffic.Base.Encoding.{big_endian, hex}
use traffic.Base.Outcome.{Outcome, ok, panic, ◌>>=◌}
use traffic.Base.{
  ℕ, suc, ◌+◌, ◌*◌, ◌%◌, ◌^◌, Bool, true, false, not, ◌&&◌, ◌||◌, List, [], ◌∷◌, ◌++◌, map, Option,
  none, some, ltb, leb, ◌==◌, if◌then◌else◌, length,
}
use traffic.Http.Header.{delete_header}
use traffic.Http.Search.{codes}
use traffic.Http.State.{HttpState}
use traffic.Packet.{Bytes, Dir, unknown, incoming, outcoming, Packet, ip2int, copy_slice}

-- `Message` with its `Stats`. An address is kept as its bytes, where the source keeps their text;
-- a time is its count of nanoseconds, and 0 is the zero time. The parser is not stored.
pub record Message : Type 0 where
  pub packets : List ℕ
  pub feedback : Option HttpState
  pub lost_data : ℕ
  pub size : ℕ
  pub start : ℕ
  pub end_at : ℕ
  pub src_addr : Bytes
  pub dst_addr : Bytes
  pub direction : Dir
  pub timed_out : Bool
  pub truncated : Bool
  pub ip_version : ℕ

-- The map `m` of the parser, from message ids to messages.
abbrev pub Table : Type 0
Table = List (ℕ × ℕ)

pub record Store : Type 0 where
  pub packet : ℕ → Packet
  pub packets_used : ℕ
  pub message : ℕ → Message
  pub messages_used : ℕ
  pub table : Table
  pub emitted : List ℕ

abbrev pub update {ℓ} : {A : Type ℓ} → (ℕ → A) → ℕ → A → ℕ → A
update f i a j = if j == i then a else f j

abbrev pub set_packet : Store → ℕ → Packet → Store
set_packet s r p = record s { packet = update s.packet r p }

abbrev pub set_message : Store → ℕ → Message → Store
set_message s i m = record s { message = update s.message i m }

abbrev pub is_incoming : Dir → Bool
is_incoming incoming = true
is_incoming _ = false

abbrev pub is_unknown : Dir → Bool
is_unknown unknown = true
is_unknown _ = false

-- the loop that skips duplicates
unfoldable pub has_seq : (ℕ → ℕ) → ℕ → List ℕ → Bool
has_seq seq r [] = false
has_seq seq r (p ∷ ps) = seq p == seq r || has_seq seq r ps

-- in front of the first packet with a larger sequence number
unfoldable pub insert_middle : (ℕ → ℕ) → ℕ → List ℕ → List ℕ
insert_middle seq r [] = []
insert_middle seq r (p ∷ ps) =
    if ltb (seq r) (seq p) then r ∷ p ∷ ps else p ∷ insert_middle seq r ps

unfoldable pub get_last : ℕ → List ℕ → ℕ
get_last p [] = p
get_last p (q ∷ ps) = get_last q ps

-- the three cases of the insertion: at the end, at the front, in the middle
unfoldable pub insert_packet : (ℕ → ℕ) → ℕ → List ℕ → List ℕ
insert_packet seq r [] = r ∷ []
insert_packet seq r (p ∷ ps) =
    if ltb (seq (get_last p ps)) (seq r)
    then (p ∷ ps) ++ (r ∷ [])
    else if ltb (seq r) (seq p)
    then r ∷ p ∷ ps
    else insert_middle seq r (p ∷ ps)

abbrev pub seq_of : Store → ℕ → ℕ
seq_of s r = (s.packet r).seq

-- `m.add(packet)`
unfoldable pub add : Store → ℕ → ℕ → Store × Bool
add s i r =
    let m = s.message i in
    let p = s.packet r in
    if has_seq (seq_of s) r m.packets then (s, false) else (
      set_message s i (record m {
        packets = insert_packet (seq_of s) r m.packets;
        size = m.size + length p.payload;
        lost_data = m.lost_data + p.lost;
        end_at = if ltb m.end_at p.timestamp || m.end_at == 0 then p.timestamp else m.end_at;
      }),
      true,
    )

-- the loop of `MissingChunk`; `nextSeq` is a uint32
unfoldable pub missing_from : (ℕ → Packet) → ℕ → List ℕ → Bool
missing_from packet next [] = false
missing_from packet next (r ∷ rs) =
    not ((packet r).seq == next)
    || missing_from packet ((next + length (packet r).payload) % 2 ^ 32) rs

module _ {E : Type 0} where
  unfoldable pub missing_chunk : Store → List ℕ → Outcome E Bool
  missing_chunk s [] = panic
  missing_chunk s (r ∷ rs) = ok (missing_from s.packet (seq_of s r) (r ∷ rs))

  -- The id of a message by its first packet.
  unfoldable pub message_uuid : Dir → Packet → Outcome E Bytes
  message_uuid direction p =
      if is_incoming direction
      then (do
        s ← ip2int p.src_ip
        let stream = bit_or (bit_or (p.src_port * 2 ^ 48 % 2 ^ 64) (p.dst_port * 2 ^ 32)) s
        ok (hex (big_endian 8 stream ++ big_endian 4 p.ack)))
      else do
        d ← ip2int p.dst_ip
        let stream = bit_or (bit_or (p.dst_port * 2 ^ 48 % 2 ^ 64) (p.src_port * 2 ^ 32)) d
        ok (hex (big_endian 8 stream ++ big_endian 4 p.seq))

abbrev pub packet_data : Store → List ℕ → List Bytes
packet_data s = map (λ r. (s.packet r).payload)

unfoldable pub continues : Option HttpState → Bool
continues none = false
continues (some state) = state.continue100

module _ {E : Type 0} where
  -- the data without the header `Expect`, where it was seen
  unfoldable pub without_expect : Option HttpState → Bytes → Outcome E Bytes
  without_expect feedback tmp =
      if continues feedback then delete_header tmp (codes "Expect") else ok tmp

  -- `Data`; `capacity` is the capacity of the first packet's payload
  unfoldable pub message_data : List Bytes → ℕ → Option HttpState → Outcome E Bytes
  message_data [] capacity feedback = panic
  message_data (first ∷ others) capacity feedback = do
    (tmp, copied) ← copy_slice first capacity (length first) others
    without_expect feedback tmp
