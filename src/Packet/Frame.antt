-- ===== src/Packet/Frame.antt =====
-- tcp/tcp_packet.go: what the parser reads from a well-formed IPv4 frame with a TCP segment.
use traffic.Base.Outcome.{ok, at-get_or, slice-take-drop, slice-append, slice-take}
use traffic.Base.{
  ℕ, ◌+◌, ◌*◌, ◌/◌, ◌%◌, ◌^◌, ◌≤◌, ◌<◌, Bool, false, not, ◌&&◌, ◌++◌, ◌≡◌, ◌∙◌, arith, not_ltb,
  not_leb, length, get_or, take, drop, length-append, get_or-append, take-length-append,
  drop-length-append,
}
use traffic.Packet.Safe.{be16-get_or, be32-get_or}
use traffic.Packet.{
  Bytes, HdrError, Packet, CaptureInfo, unknown, lost_bytes, only_zeros, has_bit, parse_ipv4,
  parse_network, parse_packet, parse_transport, tcp_offset, addresses, transport,
}

-- A number in network byte order, in two or four bytes.
abbrev pub word16 : Bytes → ℕ → ℕ
word16 s i = get_or s i 0 * 256 + get_or s (i + 1) 0

abbrev pub word32 : Bytes → ℕ → ℕ
word32 s i =
    get_or s i 0 * 256 ^ 3
    + get_or s (i + 1) 0 * 256 ^ 2
    + get_or s (i + 2) 0 * 256
    + get_or s (i + 3) 0

-- An IPv4 header of `words` words, options included, that announces TCP.
pub record IsIpv4Header (net : Bytes) : Type 0 where
  pub words : ℕ
  pub first_byte : get_or net 0 0 ≡ 4 * 16 + words
  pub at_least : 5 ≤ words
  pub below : words < 16
  pub size : length net ≡ 4 * words
  pub protocol : get_or net 9 0 ≡ 6

-- A TCP header of `words` words, options included; the low half of byte 12 is `reserved`.
pub record IsTcpHeader (trans : Bytes) : Type 0 where
  pub words : ℕ
  pub reserved : ℕ
  pub offset_byte : get_or trans 12 0 ≡ words * 16 + reserved
  pub reserved_below : reserved < 16
  pub at_least : 5 ≤ words
  pub size : length trans ≡ 4 * words

-- The packet that RFC 791 and RFC 793 describe by these headers.
abbrev pub described : CaptureInfo → Bytes → Bytes → Bytes → Packet
described cp net trans payload = record {
  direction = unknown;
  message_id = 0;
  src_ip = take 4 (drop 12 net);
  dst_ip = take 4 (drop 16 net);
  version = 4;
  src_port = word16 trans 0;
  dst_port = word16 trans 2;
  seq = word32 trans 4;
  ack = word32 trans 8;
  fin_flag = has_bit (get_or trans 13 0) 0;
  syn_flag = has_bit (get_or trans 13 0) 1;
  rst_flag = has_bit (get_or trans 13 0) 2;
  ack_flag = has_bit (get_or trans 13 0) 4;
  lost = lost_bytes cp;
  retry = 0;
  capture_length = cp.capture_length;
  timestamp = cp.timestamp;
  payload = payload;
}

module _ (net rest : Bytes) (header : IsIpv4Header net) where
  parse_ipv4-append : parse_ipv4 (net ++ rest) ≡ ok (6, net)
  unfolding parse_ipv4
  parse_ipv4-append =
      let l = length-append net rest in
      let h = header.size in
      let w = header.at_least in
      let protocol = get_or-append net rest 9 0 (omega arith) ∙ header.protocol in
      let first = get_or-append net rest 0 0 (omega arith) in
      let ihl : get_or net 0 0 % 16 * 4 ≡ length net =
        omega (arith, header.first_byte, header.below, header.size) in
      rw (
        not_ltb (length (net ++ rest)) 20 (omega arith),
        at-get_or {E = HdrError} (net ++ rest) 9 0 (omega arith),
        protocol,
        at-get_or {E = HdrError} (net ++ rest) 0 0 (omega arith),
        first,
        ihl,
        not_ltb (length net) 20 (omega arith),
        not_ltb (length (net ++ rest)) (length net) (omega arith),
        slice-take {E = HdrError} (net ++ rest) (length net) (omega arith),
        take-length-append net rest,
      )

  parse_network-append : (fuel : ℕ) → parse_network fuel (net ++ rest) ≡ ok (6, net)
  unfolding parse_network
  parse_network-append fuel =
      let l = length-append net rest in
      let h = header.size in
      let w = header.at_least in
      let four : get_or net 0 0 / 16 ≡ 4 = omega (arith, header.first_byte, header.below) in
      rw
        (
          at-get_or {E = HdrError} (net ++ rest) 0 0 (omega arith),
          get_or-append net rest 0 0 (omega arith),
          four,
        )
        parse_ipv4-append

addresses_four :
    (net : Bytes)
    → IsIpv4Header net
    → addresses net
      ≡ ok (record { version = 4; src = take 4 (drop 12 net); dst = take 4 (drop 16 net) })
unfolding addresses
addresses_four net header =
    let h = header.size in
    let w = header.at_least in
    let four : get_or net 0 0 / 16 ≡ 4 = omega (arith, header.first_byte, header.below) in
    rw (
      at-get_or {E = HdrError} net 0 0 (omega arith),
      four,
      slice-take-drop {E = HdrError} net 12 16 (omega arith) (omega arith),
      slice-take-drop {E = HdrError} net 16 20 (omega arith) (omega arith),
    )

module _ (trans payload : Bytes) (header : IsTcpHeader trans) where
  tcp_offset-append :
      (allow_empty : Bool)
      → (not allow_empty && only_zeros payload) ≡ false
      → tcp_offset (trans ++ payload) allow_empty ≡ ok (length trans)
  unfolding tcp_offset
  tcp_offset-append allow_empty counts =
      let l = length-append trans payload in
      let h = header.size in
      let w = header.at_least in
      let offset : get_or trans 12 0 / 16 * 4 ≡ length trans =
        omega (arith, header.offset_byte, header.reserved_below, header.size) in
      rw (
        not_ltb (length (trans ++ payload)) 20 (omega arith),
        at-get_or {E = HdrError} (trans ++ payload) 12 0 (omega arith),
        get_or-append trans payload 12 0 (omega arith),
        offset,
        not_ltb (length trans) 20 (omega arith),
        not_ltb (length (trans ++ payload)) (length trans) (omega arith),
        drop-length-append trans payload,
        counts,
      )

  transport-append :
      transport (trans ++ payload) (length trans)
      ≡ ok (record {
        src_port = word16 trans 0;
        dst_port = word16 trans 2;
        seq = word32 trans 4;
        ack = word32 trans 8;
        flags = get_or trans 13 0;
        payload = payload;
      })
  unfolding transport
  transport-append =
      let l = length-append trans payload in
      let h = header.size in
      let w = header.at_least in
      rw (
        slice-take {E = HdrError} (trans ++ payload) (length trans) (omega arith),
        take-length-append trans payload,
        be16-get_or {E = HdrError} trans 0 (omega arith),
        be16-get_or {E = HdrError} trans 2 (omega arith),
        be32-get_or {E = HdrError} trans 4 (omega arith),
        be32-get_or {E = HdrError} trans 8 (omega arith),
        at-get_or {E = HdrError} trans 13 0 (omega arith),
        slice-append {E = HdrError} trans payload,
      )

-- Every frame of a link header, an IPv4 header and a TCP header, with options or without, and a
-- payload that is not only zeros (or is allowed to be) is parsed into the packet that its headers
-- describe, with any fuel.
pub parse_packet-described :
    (fuel : ℕ) (link net trans payload : Bytes) (cp : CaptureInfo) (allow_empty : Bool)
    → IsIpv4Header net
    → IsTcpHeader trans
    → (not allow_empty && only_zeros payload) ≡ false
    → parse_packet fuel (link ++ (net ++ (trans ++ payload))) (length link) cp allow_empty
      ≡ ok (described cp net trans payload)
unfolding parse_packet parse_transport
parse_packet-described fuel link net trans payload cp allow_empty ip tcp counts =
    let seg = trans ++ payload in
    let l = length-append link (net ++ seg) in
    let l' = length-append net seg in
    let l'' = length-append trans payload in
    let h = ip.size in
    let w = ip.at_least in
    let h' = tcp.size in
    let w' = tcp.at_least in
    let frame = link ++ (net ++ seg) in
    rw (
      not_ltb (length frame) (length link) (omega arith),
      not_leb (length frame) (length link) (omega arith),
      slice-append {E = HdrError} link (net ++ seg),
      parse_network-append net seg ip fuel,
      not_leb (length frame) (length net) (omega arith),
      slice-append {E = HdrError} net seg,
      tcp_offset-append trans payload tcp allow_empty counts,
      addresses_four net ip,
      transport-append trans payload tcp,
    )
