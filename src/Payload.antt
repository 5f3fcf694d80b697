-- ===== src/Payload.antt =====
-- proto/goreplay.go: the line in front of a recorded payload, and the ids that pair requests with
-- responses. The random bytes of `RandByte` are input and output of the system only.
pub mod Meta
pub mod Uuid
use Prim.Native.Nat.{bit_or}
use traffic.Base.Encoding.{big_endian, hex, ℤ, decimal}
use traffic.Base.Outcome.{Outcome, ok, ◌>>=◌, at}
use traffic.Base.{
  ℕ, suc, ◌+◌, ◌*◌, ◌%◌, ◌^◌, Bool, true, false, List, [], ◌∷◌, ◌++◌, Option, none, some, ◌==◌,
  if◌then◌else◌, length, take, drop,
}
use traffic.Core.{NewPacket}
use traffic.Packet.{be32}

abbrev pub Bytes : Type 0
Bytes = List ℕ

abbrev pub request_payload : ℕ
request_payload = b'1'

abbrev pub response_payload : ℕ
response_payload = b'2'

abbrev pub replayed_response_payload : ℕ
replayed_response_payload = b'3'

-- "\n🐵🙈🙉\n" in UTF-8
abbrev pub payload_separator : Bytes
payload_separator =
    b'\n' ∷ 0xf0 ∷ 0x9f ∷ 0x90 ∷ 0xb5 ∷ 0xf0 ∷ 0x9f ∷ 0x99 ∷ 0x88 ∷ 0xf0 ∷ 0x9f ∷ 0x99 ∷ 0x89
    ∷ b'\n' ∷ []

-- `bytes.IndexByte`, with `none` for -1
unfoldable pub index_byte : Bytes → ℕ → Option ℕ
index_byte [] c = none
index_byte (b ∷ s) c =
    if b == c then some 0 else elim (index_byte s c) [ none ↦ none | some i ↦ some (suc i) ]

-- `bytes.Split(s, []byte{c})`
unfoldable pub split : Bytes → ℕ → List Bytes
split [] c = [] ∷ []
split (b ∷ s) c =
    if b == c
    then [] ∷ split s c
    else elim (split s c) [ [] ↦ (b ∷ []) ∷ [] | p ∷ ps ↦ (b ∷ p) ∷ ps ]

-- `fmt.Sprintf("%c %s %d %d\n", ...)`; the type of a payload is an ASCII character
unfoldable pub payload_header : ℕ → Bytes → ℤ → ℤ → Bytes
payload_header payload_type uuid timing latency =
    payload_type
    ∷ b' '
    ∷ (uuid ++ (b' ' ∷ (decimal timing ++ (b' ' ∷ (decimal latency ++ (b'\n' ∷ []))))))

unfoldable pub payload_body : Bytes → Bytes
payload_body payload = elim (index_byte payload b'\n') [
  | none ↦ payload
  | some i ↦ drop (i + 1) payload
]

unfoldable pub payload_meta : Bytes → List Bytes
payload_meta payload =
    let header_size : ℕ = elim (index_byte payload b'\n') [ none ↦ 0 | some i ↦ i ] in
    split (take header_size payload) b' '

module _ {E : Type 0} where
  -- `payload[0]` of an empty payload panics
  unfoldable pub is_request_payload : Bytes → Outcome E Bool
  is_request_payload payload = do b ← at payload 0; ok (b == request_payload)

  unfoldable pub ip2int : Bytes → Outcome E ℕ
  ip2int ip = if length ip == 0 then ok 0 else if length ip == 16 then be32 ip 12 else be32 ip 0

  unfoldable pub uuid : NewPacket → Bool → Outcome E Bytes
  uuid c true = do
    s ← ip2int c.src_ip
    let stream = bit_or (bit_or (c.src_port * 2 ^ 48 % 2 ^ 64) (c.dst_port * 2 ^ 32)) s
    ok (hex (big_endian 8 stream ++ big_endian 4 c.ack))
  uuid c false = do
    d ← ip2int c.dst_ip
    let stream = bit_or (bit_or (c.dst_port * 2 ^ 48 % 2 ^ 64) (c.src_port * 2 ^ 32)) d
    ok (hex (big_endian 8 stream ++ big_endian 4 c.seq))
