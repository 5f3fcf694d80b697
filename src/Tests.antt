-- ===== src/Tests.antt =====
-- Runs of the operations on concrete input.
pub mod Messages
pub mod Sending
pub mod Starting
pub mod Streams
use mathlib.Core.List.{flatten}
use traffic.Base.Encoding.{ℤ, pos, decimal}
use traffic.Base.Outcome.{ok, panic, loops, ◌>>=◌}
use traffic.Base.{
  ℕ, ◌+◌, ◌*◌, ◌^◌, ◌<◌, Bool, true, false, List, [], ◌∷◌, ◌++◌, ◌≡◌, ◌≢◌, ◌↔◌, inl, refl, arith,
  length, take, replicate,
}
use traffic.ByteUtils.Splice.{insert-append, cut-append, replace-append}
use traffic.ByteUtils.{insert, cut, replace}
use traffic.Core.Agree.{parse_packet-agrees, as_core, strip}
use traffic.Core.{NewPacket, parse}
use traffic.Packet.Copy.{copy_slice-take}
use traffic.Packet.Frame.{parse_packet-described, IsIpv4Header, IsTcpHeader, described}
use traffic.Packet.Fuel.{parse_packet_decides, parse_packet-loops, fuel_for}
use traffic.Packet.Id.{message_id_iff, IsFresh}
use traffic.Packet.Safe.{parse_packet-ne-panic}
use traffic.Packet.{
  Bytes, CaptureInfo, HdrError, Packet, copy_slice, total_length, ip2int, be32, message_id,
  parse_packet,
}
use traffic.Payload.Meta.{payload_body-header, payload_meta-header}
use traffic.Payload.Uuid.{uuid_pairs_iff, low_bytes}
use traffic.Payload as Payload

abbrev pub capture : CaptureInfo
capture = record { timestamp = 5; capture_length = 57; length_on_wire = 57 }

abbrev pub link : Bytes
link = replicate 14 0

abbrev pub net : Bytes
net = 69 ∷ 0 ∷ 0 ∷ 43 ∷ 0 ∷ 1 ∷ 0 ∷ 0 ∷ 64 ∷ 6 ∷ 0 ∷ 0 ∷ 10 ∷ 0 ∷ 0 ∷ 1 ∷ 10 ∷ 0 ∷ 0 ∷ 2 ∷ []

abbrev pub trans : Bytes
trans = 31 ∷ 144 ∷ 0 ∷ 80 ∷ 0 ∷ 0 ∷ 0 ∷ 100 ∷ 0 ∷ 0 ∷ 0 ∷ 7 ∷ 80 ∷ 24 ∷ 1 ∷ 0 ∷ 0 ∷ 0 ∷ 0 ∷ 0 ∷ []

abbrev pub get : Bytes
get = b'G' ∷ b'E' ∷ b'T' ∷ []

abbrev endless : Bytes
endless =
    96 ∷ 0 ∷ 0 ∷ 0 ∷ 0 ∷ 8 ∷ 0 ∷ 64 ∷ 0 ∷ 0 ∷ 0 ∷ 0 ∷ 0 ∷ 0 ∷ 0 ∷ 0 ∷ 0 ∷ 0 ∷ 0 ∷ 0 ∷ 0 ∷ 0 ∷ 0 ∷ 0
    ∷ 0 ∷ 0 ∷ 0 ∷ 0 ∷ 0 ∷ 0 ∷ 0 ∷ 0 ∷ 0 ∷ 0 ∷ 0 ∷ 0 ∷ 0 ∷ 0 ∷ 0 ∷ 0 ∷ 0 ∷ 255 ∷ 0 ∷ 0 ∷ 0 ∷ 0 ∷ 0
    ∷ 0 ∷ []

parse_packet-ne-panic_example : parse_packet 9 (link ++ net) 14 capture true ≢ panic
parse_packet-ne-panic_example = parse_packet-ne-panic 9 (link ++ net) 14 capture true

parse_packet-loops_example : parse_packet 3 ([] ++ endless) 0 capture true ≡ loops
parse_packet-loops_example =
    parse_packet-loops [] endless capture true refl (omega arith) (inl refl) (inl refl) refl 3

parse_packet_decides_example : parse_packet 500 endless 0 capture true ≡ loops
parse_packet_decides_example =
    parse_packet_decides endless 0 capture true
      (parse_packet-loops [] endless capture true refl (omega arith) (inl refl) (inl refl) refl
        (fuel_for endless))
      500

net-IsIpv4Header : IsIpv4Header net
net-IsIpv4Header = record {
  words = 5;
  first_byte = refl;
  at_least = omega arith;
  below = omega arith;
  size = refl;
  protocol = refl;
}

trans-IsTcpHeader : IsTcpHeader trans
trans-IsTcpHeader = record {
  words = 5;
  reserved = 0;
  offset_byte = refl;
  reserved_below = omega arith;
  at_least = omega arith;
  size = refl;
}

parse_packet-described_example :
    parse_packet 0 (link ++ (net ++ (trans ++ get))) 14 capture true
    ≡ ok (described capture net trans get)
parse_packet-described_example =
    parse_packet-described 0 link net trans get capture true net-IsIpv4Header trans-IsTcpHeader refl

copy_slice-take_example :
    copy_slice {E = HdrError} net 22 20 (get ∷ get ∷ [])
    ≡ ok (net ++ take 4 (flatten (get ∷ get ∷ [])), 24)
unfolding flatten total_length
copy_slice-take_example = copy_slice-take net 22 (get ∷ get ∷ []) (omega arith)

abbrev pub sample : Packet
sample = described capture net trans get

-- the number of the second stream is larger by one
abbrev pub later : Packet
later = record sample { ack = 8 }

sample-IsFresh : IsFresh sample 335544330
unfolding ip2int be32
sample-IsFresh = record {
  no_id = refl;
  src = 167772161;
  dst = 167772162;
  src_is = refl;
  dst_is = refl;
  sum_is = refl;
  sum_below = omega arith;
  src_port_below = omega arith;
  dst_port_below = omega arith;
}

later-IsFresh : IsFresh later 335544331
unfolding ip2int be32
later-IsFresh = record {
  no_id = refl;
  src = 167772161;
  dst = 167772162;
  src_is = refl;
  dst_is = refl;
  sum_is = refl;
  sum_below = omega arith;
  src_port_below = omega arith;
  dst_port_below = omega arith;
}

abbrev stream : ℕ
stream = 2274318155755028490

sample-id : message_id {E = HdrError} sample ≡ ok (record sample { message_id = stream }, stream)
unfolding message_id ip2int be32
sample-id = refl

later-id :
    message_id {E = HdrError} later ≡ ok (record later { message_id = stream + 1 }, stream + 1)
unfolding message_id ip2int be32
later-id = refl

message_id_iff_example : (stream ≡ stream + 1) ↔ (
    (sample.src_port ≡ later.src_port)
    × (sample.dst_port ≡ later.dst_port)
    × ◌≡◌ {A = ℕ} 335544330 335544331)
message_id_iff_example =
    message_id_iff sample later 335544330 335544331 stream (stream + 1) sample-IsFresh later-IsFresh
      sample-id later-id

abbrev blank : NewPacket
blank = record {
  message_id = 3;
  src_ip = [];
  dst_ip = [];
  version = 0;
  src_port = 0;
  dst_port = 0;
  ack = 0;
  seq = 0;
  ack_flag = false;
  syn_flag = false;
  fin_flag = false;
  rst_flag = false;
  lost = 0;
  retry = 0;
  capture_length = 0;
  timestamp = 0;
  payload = [];
}

parse_packet-agrees_example :
    (as_core (parse_packet 1 (link ++ net) 14 capture true) >>= λ q. ok (strip q))
    ≡ parse 1 blank (link ++ net) 14 capture true
parse_packet-agrees_example = parse_packet-agrees 1 blank (link ++ net) 14 capture true

abbrev id : Bytes
id = b'a' ∷ b'1' ∷ []

payload_meta-header_example :
    Payload.payload_meta (Payload.payload_header b'1' id (pos 12) (pos 0) ++ get)
    ≡ (b'1' ∷ []) ∷ id ∷ (b'1' ∷ b'2' ∷ []) ∷ (b'0' ∷ []) ∷ []
unfolding decimal
payload_meta-header_example =
    payload_meta-header b'1' id (pos 12) (pos 0) get (omega arith) (omega arith, (omega arith, tt))
      (omega arith) (omega arith, (omega arith, tt))

abbrev asked : NewPacket
asked = record blank {
  src_ip = 10 ∷ 0 ∷ 0 ∷ 1 ∷ [];
  dst_ip = 10 ∷ 0 ∷ 0 ∷ 2 ∷ [];
  src_port = 8080;
  dst_port = 80;
  ack = 7;
}

abbrev answered : NewPacket
answered = record blank {
  src_ip = 10 ∷ 0 ∷ 0 ∷ 2 ∷ [];
  dst_ip = 10 ∷ 0 ∷ 0 ∷ 1 ∷ [];
  src_port = 80;
  dst_port = 8080;
  seq = 7;
}

uuid_pairs_iff_example : (Payload.uuid {E = HdrError} asked true ≡ Payload.uuid answered false) ↔ (
    (asked.src_port ≡ answered.dst_port)
    × (asked.dst_port ≡ answered.src_port)
    × (low_bytes asked.src_ip ≡ low_bytes answered.dst_ip)
    × (asked.ack ≡ answered.seq))
uuid_pairs_iff_example =
    uuid_pairs_iff asked answered
      (inl refl, (omega arith, (omega arith, (omega arith, (omega arith, tt)))))
      (inl refl, (omega arith, (omega arith, (omega arith, (omega arith, tt)))))
      (record { first_port = omega arith; second_port = omega arith; number = omega arith })
      (record { first_port = omega arith; second_port = omega arith; number = omega arith })
