-- ===== src/Core.antt =====
-- core/new_packet.go: the second parser of captured frames, whose method fills a packet and reports
-- only whether it succeeded. Each error that it logs is kept as the text that it logs.
pub mod Agree
use traffic.Base.Outcome.{Outcome, ok, err, panic, loops, ◌>>=◌, at, slice}
use traffic.Base.{
  ℕ, zero, suc, ◌+◌, ◌-◌, ◌*◌, ◌/◌, ◌%◌, ◌^◌, Bool, true, false, not, ◌&&◌, ◌||◌, List, [], ◌∷◌,
  String, ltb, leb, ◌==◌, if◌then◌else◌, length, drop,
}
use traffic.Packet.{Bytes, CaptureInfo, be16, be32, has_bit}

-- The fields that `Parse` sets; `buf`, `created` and `gc` are never read.
pub record NewPacket : Type 0 where
  pub message_id : ℕ
  pub src_ip : Bytes
  pub dst_ip : Bytes
  pub version : ℕ
  pub src_port : ℕ
  pub dst_port : ℕ
  pub ack : ℕ
  pub seq : ℕ
  pub ack_flag : Bool
  pub syn_flag : Bool
  pub fin_flag : Bool
  pub rst_flag : Bool
  pub lost : ℕ
  pub retry : ℕ
  pub capture_length : ℕ
  pub timestamp : ℕ
  pub payload : Bytes

-- what `Parse` does: `false` with a line in the log, or with none
pub data Refusal : Type 0 where
  logged : String → Refusal
  silent : Refusal

abbrev pub Parsed : Type 0 → Type 0
Parsed = Outcome Refusal

unfoldable pub ipv6_extension_hdr : ℕ → Bool
ipv6_extension_hdr b = b == 0 || b == 43 || b == 44

unfoldable pub parse_ipv4 : Bytes → Parsed (ℕ × Bytes)
parse_ipv4 ldata = if ltb (length ldata) 20 then err (logged "IPv4") else do
  proto ← at ldata 9
  first ← at ldata 0
  let ihl = first % 16 * 4
  if ltb ihl 20
      then err (logged "IPv4's IHL")
      else if ltb (length ldata) ihl
      then err (logged "IPv4 opts")
      else do net ← slice ldata 0 ihl; ok (proto, net)

-- one round of the loop over the extension headers, with the same addition of bytes
unfoldable pub extension : Bytes → ℕ → ℕ → Parsed (ℕ × ℕ)
extension ldata proto total =
    if ltb (length ldata) (total + 8) then err (logged "IPv6 opts") else do
      octets ← if proto == 44 then ok 8 else do l ← at ldata (total + 1); ok ((l + 1) % 256 * 8)
      if ltb (length ldata) (total + octets)
          then err (logged "IPv6 opts")
          else do next ← at ldata total; ok (next, total + octets)

unfoldable pub extensions : ℕ → Bytes → ℕ → ℕ → Parsed (ℕ × ℕ)
extensions zero ldata proto total = loops
extensions (suc fuel) ldata proto total = elim (ipv6_extension_hdr proto) [
  | true ↦ extension ldata proto total >>= (λ (p, t). extensions fuel ldata p t)
  | false ↦ ok (proto, total)
]

unfoldable pub parse_ipv6 : ℕ → Bytes → Parsed (ℕ × Bytes)
parse_ipv6 fuel ldata = if ltb (length ldata) 40 then err (logged "IPv6") else do
  first ← at ldata 6
  (proto, total) ← extensions fuel ldata first 40
  net ← slice ldata 0 total
  ok (proto, net)

unfoldable pub parse_network : ℕ → Bytes → Parsed (ℕ × Bytes)
parse_network fuel ldata = do
  first ← at ldata 0
  if first / 16 == 4
      then parse_ipv4 ldata
      else if first / 16 == 6
      then parse_ipv6 fuel ldata
      else err (logged "IPv4 or IPv6")

unfoldable pub only_zeros : Bytes → Bool
only_zeros [] = true
only_zeros (b ∷ bs) = b == 0 && only_zeros bs

unfoldable pub tcp_offset : Bytes → Bool → Parsed ℕ
tcp_offset ndata allow_empty = if ltb (length ndata) 20 then err (logged "TCP") else do
  b ← at ndata 12
  let offset = b / 16 * 4
  if ltb offset 20
      then err (logged "TCP's ndata offset")
      else if ltb (length ndata) offset
      then err (logged "TCP opts")
      else if not allow_empty && only_zeros (drop offset ndata)
      then err silent
      else ok offset

-- the stores from the network layer: version and addresses
unfoldable pub store_network : Bytes → NewPacket → Parsed NewPacket
store_network net p = do
  first ← at net 0
  if first / 16 == 4
      then (do
        s ← slice net 12 16
        d ← slice net 16 20
        ok (record p { version = 4; src_ip = s; dst_ip = d }))
      else do
        s ← slice net 8 24
        d ← slice net 24 40
        ok (record p { version = 6; src_ip = s; dst_ip = d })

-- `uint32(cp.Length - cp.CaptureLength)`
unfoldable pub lost_bytes : CaptureInfo → ℕ
lost_bytes cp = (cp.length_on_wire + (2 ^ 32 - cp.capture_length % 2 ^ 32)) % 2 ^ 32

-- the stores from the TCP header
unfoldable pub store_transport : Bytes → ℕ → CaptureInfo → NewPacket → Parsed NewPacket
store_transport ndata offset cp p = do
  trans ← slice ndata 0 offset
  sp ← be16 trans 0
  dp ← be16 trans 2
  s ← be32 trans 4
  a ← be32 trans 8
  f ← at trans 13
  load ← slice ndata offset (length ndata)
  ok (record p {
    capture_length = cp.capture_length;
    src_port = sp;
    dst_port = dp;
    seq = s;
    ack = a;
    fin_flag = has_bit f 0;
    syn_flag = has_bit f 1;
    rst_flag = has_bit f 2;
    ack_flag = has_bit f 4;
    lost = lost_bytes cp;
    payload = load;
  })

unfoldable pub store_layers :
    Bytes → Bytes → ℕ × Bytes → CaptureInfo → Bool → NewPacket → Parsed NewPacket
store_layers frame ldata (proto, net) cp allow_empty p =
    if not (proto == 6)
    then err (logged "TCP")
    else if leb (length frame) (length net)
    then err (logged "TCP")
    else do
      ndata ← slice ldata (length net) (length ldata)
      offset ← tcp_offset ndata allow_empty
      q ← store_network net p
      store_transport ndata offset cp q

-- `Parse` on the packet `p`; the packet that it fills, or `false`
unfoldable pub parse : ℕ → NewPacket → Bytes → ℕ → CaptureInfo → Bool → Parsed NewPacket
parse fuel p frame link_len cp allow_empty =
    let q = record p { retry = 0; message_id = 0; timestamp = cp.timestamp } in
    if ltb (length frame) link_len
    then err (logged "Link")
    else if leb (length frame) link_len
    then err (logged "IPv4 or IPv6")
    else do
      ldata ← slice frame link_len (length frame)
      layer ← parse_network fuel ldata
      store_layers frame ldata layer cp allow_empty q
