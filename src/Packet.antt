-- ===== src/Packet.antt =====
-- tcp/tcp_packet.go: packets, the parser of captured frames, message ids and `copySlice`.
-- Numbers of fixed width are natural numbers with their wrap-around written out. The loop over
-- the IPv6 extension headers takes fuel; without fuel the outcome is `loops`.
pub mod Walk
pub mod Safe
pub mod Fuel
pub mod Frame
pub mod Copy
pub mod Id
use Prim.Native.Nat.{min, bit_or}
use mathlib.Core.List.{foldl}
use traffic.Base.Outcome.{Outcome, ok, err, panic, loops, ◌>>=◌, at, slice}
use traffic.Base.{
  ℕ, zero, suc, ◌+◌, ◌-◌, ◌*◌, ◌/◌, ◌%◌, ◌^◌, Bool, true, false, not, ◌&&◌, ◌||◌, List, [], ◌∷◌,
  ◌++◌, map, String, ltb, leb, ◌==◌, if◌then◌else◌, length, take, drop, replicate,
}

abbrev pub Bytes : Type 0
Bytes = List ℕ

pub data HdrError : Type 0 where
  hdr_length hdr_missing hdr_expected hdr_invalid : String → HdrError
  empty_packet : HdrError

pub data Dir : Type 0 where
  unknown incoming outcoming : Dir

-- `gopacket.CaptureInfo`, the fields that the parser reads; a time is its count of nanoseconds
pub record CaptureInfo : Type 0 where
  pub timestamp : ℕ
  pub capture_length : ℕ
  pub length_on_wire : ℕ

-- The fields `buf`, `created` and `gc` of the source are never read and have no field here.
pub record Packet : Type 0 where
  pub direction : Dir
  pub message_id : ℕ
  pub src_ip : Bytes
  pub dst_ip : Bytes
  pub version : ℕ
  pub src_port : ℕ
  pub dst_port : ℕ
  pub ack : ℕ
  pub seq : ℕ
  pub ack_flag : Bool
  pub syn_flag : Bool
  pub fin_flag : Bool
  pub rst_flag : Bool
  pub lost : ℕ
  pub retry : ℕ
  pub capture_length : ℕ
  pub timestamp : ℕ
  pub payload : Bytes

abbrev pub Parsed : Type 0 → Type 0
Parsed = Outcome HdrError

unfoldable pub ipv6_extension_hdr : ℕ → Bool
ipv6_extension_hdr b = b == 0 || b == 43 || b == 44

-- `binary.BigEndian.Uint16` and `Uint32` of the bytes from `i` on
module _ {E : Type 0} where
  unfoldable pub be16 : Bytes → ℕ → Outcome E ℕ
  be16 s i = do a ← at s i; b ← at s (i + 1); ok (a * 256 + b)

  unfoldable pub be32 : Bytes → ℕ → Outcome E ℕ
  be32 s i = do
    a ← at s i
    b ← at s (i + 1)
    c ← at s (i + 2)
    d ← at s (i + 3)
    ok (a * 256 ^ 3 + b * 256 ^ 2 + c * 256 + d)

-- the bit of value `2 ^ k`: `b & (1 << k) != 0`
abbrev pub has_bit : ℕ → ℕ → Bool
has_bit b k = (b / 2 ^ k) % 2 == 1

-- the branch for version 4: the protocol and the network layer
unfoldable pub parse_ipv4 : Bytes → Parsed (ℕ × Bytes)
parse_ipv4 ldata = if ltb (length ldata) 20 then err (hdr_length "IPv4") else do
  proto ← at ldata 9
  first ← at ldata 0
  let ihl = first % 16 * 4
  if ltb ihl 20
      then err (hdr_invalid "IPv4's IHL")
      else if ltb (length ldata) ihl
      then err (hdr_length "IPv4 opts")
      else do net ← slice ldata 0 ihl; ok (proto, net)

-- One round of the loop: the next protocol and offset. `ldata[totalLen+1]+1` is an addition of
-- bytes, so 255 wraps to 0. The subtraction of the lengths is of ints, and `leb` keeps its sign.
unfoldable pub extension : Bytes → ℕ → ℕ → Parsed (ℕ × ℕ)
extension ldata proto total =
    if ltb (length ldata) (total + 8) then err (hdr_expected "IPv6 opts") else do
      octets ← if proto == 44 then ok 8 else do l ← at ldata (total + 1); ok ((l + 1) % 256 * 8)
      if ltb (length ldata) (total + octets)
          then err (hdr_length "IPv6 opts")
          else do next ← at ldata total; ok (next, total + octets)

-- `for ipv6ExtensionHdr(proto) { ... }`
unfoldable pub extensions : ℕ → Bytes → ℕ → ℕ → Parsed (ℕ × ℕ)
extensions zero ldata proto total = loops
extensions (suc fuel) ldata proto total = elim (ipv6_extension_hdr proto) [
  | true ↦ extension ldata proto total >>= (λ (p, t). extensions fuel ldata p t)
  | false ↦ ok (proto, total)
]

-- the branch for version 6
unfoldable pub parse_ipv6 : ℕ → Bytes → Parsed (ℕ × Bytes)
parse_ipv6 fuel ldata = if ltb (length ldata) 40 then err (hdr_length "IPv6") else do
  first ← at ldata 6
  (proto, total) ← extensions fuel ldata first 40
  net ← slice ldata 0 total
  ok (proto, net)

unfoldable pub parse_network : ℕ → Bytes → Parsed (ℕ × Bytes)
parse_network fuel ldata = do
  first ← at ldata 0
  if first / 16 == 4
      then parse_ipv4 ldata
      else if first / 16 == 6
      then parse_ipv6 fuel ldata
      else err (hdr_expected "IPv4 or IPv6")

-- the loop that looks for a byte which is not zero
unfoldable pub only_zeros : Bytes → Bool
only_zeros [] = true
only_zeros (b ∷ bs) = b == 0 && only_zeros bs

-- The checks on the TCP header: the data offset, once the payload is known to count.
unfoldable pub tcp_offset : Bytes → Bool → Parsed ℕ
tcp_offset ndata allow_empty = if ltb (length ndata) 20 then err (hdr_length "TCP") else do
  b ← at ndata 12
  let offset = b / 16 * 4
  if ltb offset 20
      then err (hdr_invalid "TCP's ndata offset")
      else if ltb (length ndata) offset
      then err (hdr_length "TCP opts")
      else if not allow_empty && only_zeros (drop offset ndata)
      then err empty_packet
      else ok offset

pub record Addresses : Type 0 where
  pub version : ℕ
  pub src : Bytes
  pub dst : Bytes

unfoldable pub addresses : Bytes → Parsed Addresses
addresses net = do
  first ← at net 0
  if first / 16 == 4
      then (do
        s ← slice net 12 16
        d ← slice net 16 20
        ok (record { version = 4; src = s; dst = d }))
      else do s ← slice net 8 24; d ← slice net 24 40; ok (record { version = 6; src = s; dst = d })

pub record Transport : Type 0 where
  pub src_port : ℕ
  pub dst_port : ℕ
  pub seq : ℕ
  pub ack : ℕ
  pub flags : ℕ
  pub payload : Bytes

-- the reads of the TCP header; `transLayer` is the first `offset` bytes
unfoldable pub transport : Bytes → ℕ → Parsed Transport
transport ndata offset = do
  trans ← slice ndata 0 offset
  sp ← be16 trans 0
  dp ← be16 trans 2
  s ← be32 trans 4
  a ← be32 trans 8
  f ← at trans 13
  p ← slice ndata offset (length ndata)
  ok (record { src_port = sp; dst_port = dp; seq = s; ack = a; flags = f; payload = p })

-- `uint32(cp.Length - cp.CaptureLength)`, a difference of ints
unfoldable pub lost_bytes : CaptureInfo → ℕ
lost_bytes cp = (cp.length_on_wire + (2 ^ 32 - cp.capture_length % 2 ^ 32)) % 2 ^ 32

abbrev build : CaptureInfo → Addresses → Transport → Packet
build cp n t = record {
  direction = unknown;
  message_id = 0;
  src_ip = n.src;
  dst_ip = n.dst;
  version = n.version;
  src_port = t.src_port;
  dst_port = t.dst_port;
  ack = t.ack;
  seq = t.seq;
  ack_flag = has_bit t.flags 4;
  syn_flag = has_bit t.flags 1;
  fin_flag = has_bit t.flags 0;
  rst_flag = has_bit t.flags 2;
  lost = lost_bytes cp;
  retry = 0;
  capture_length = cp.capture_length;
  timestamp = cp.timestamp;
  payload = t.payload;
}

-- the part of `parse` behind the network layer; `data` is the whole frame
unfoldable pub parse_transport : Bytes → Bytes → ℕ × Bytes → CaptureInfo → Bool → Parsed Packet
parse_transport frame ldata (proto, net) cp allow_empty =
    if not (proto == 6)
    then err (hdr_expected "TCP")
    else if leb (length frame) (length net)
    then err (hdr_missing "TCP")
    else do
      ndata ← slice ldata (length net) (length ldata)
      offset ← tcp_offset ndata allow_empty
      n ← addresses net
      t ← transport ndata offset
      ok (build cp n t)

-- `ParsePacket` on a new packet; the link type is never read
unfoldable pub parse_packet : ℕ → Bytes → ℕ → CaptureInfo → Bool → Parsed Packet
parse_packet fuel frame link_len cp allow_empty =
    if ltb (length frame) link_len
    then err (hdr_length "Link")
    else if leb (length frame) link_len
    then err (hdr_missing "IPv4 or IPv6")
    else do
      ldata ← slice frame link_len (length frame)
      layer ← parse_network fuel ldata
      parse_transport frame ldata layer cp allow_empty

module _ {E : Type 0} where
  unfoldable pub ip2int : Bytes → Outcome E ℕ
  ip2int ip = if length ip == 0 then ok 0 else if length ip == 16 then be32 ip 12 else be32 ip 0

  -- The id of a packet's message, computed once and kept in the packet.
  unfoldable pub message_id : Packet → Outcome E (Packet × ℕ)
  message_id p =
      if p.message_id == 0
      then (do
        s ← ip2int p.src_ip
        d ← ip2int p.dst_ip
        let ports = bit_or (p.src_port * 2 ^ 48 % 2 ^ 64) (p.dst_port * 2 ^ 32)
        let id = bit_or ports ((s + d + p.ack) % 2 ^ 64)
        ok (record p { message_id = id }, id))
      else ok (p, p.message_id)

  -- `skip += copy(to[skip:], s)`: what does not fit into `to` is not copied
  unfoldable pub copy_onto : Bytes × ℕ → Bytes → Outcome E (Bytes × ℕ)
  copy_onto (to, skip) s =
      if leb skip (length to)
      then (let n = min (length to - skip) (length s) in
          ok (take skip to ++ (take n s ++ drop (skip + n) to), skip + n))
      else panic

  unfoldable pub copy_all : Bytes × ℕ → List Bytes → Outcome E (Bytes × ℕ)
  copy_all state [] = ok state
  copy_all state (s ∷ from) = copy_onto state s >>= λ next. copy_all next from

-- the sum of the lengths
unfoldable pub total_length : List Bytes → ℕ
total_length [] = 0
total_length (s ∷ from) = length s + total_length from

-- `copySlice`; `capacity` is `cap(to)`, which may exceed the length of `to`
unfoldable pub copy_slice : {E : Type 0} → Bytes → ℕ → ℕ → List Bytes → Outcome E (Bytes × ℕ)
copy_slice to capacity skip from =
    let total = total_length from + skip in
    let grown = if ltb capacity total then to ++ replicate (total - capacity) 0 else to in
    copy_all (grown, skip) from
