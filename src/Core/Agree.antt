-- ===== src/Core/Agree.antt =====
-- The two parsers of frames, core/new_packet.go and tcp/tcp_packet.go, agree.
use traffic.Base.Outcome.{Outcome, ok, err, panic, loops, ◌>>=◌, at, slice}
use traffic.Base.{
  ℕ, zero, suc, Bool, true, false, ◌&&◌, ◌||◌, List, [], ◌∷◌, leb, ◌==◌, ◌≡◌, refl, if◌then◌else◌,
  length, Bool-cases, inl, inr,
}
use traffic.Core.{NewPacket, Refusal, logged, silent}
use traffic.Core
use traffic.Packet.{
  Bytes, CaptureInfo, HdrError, hdr_length, hdr_missing, hdr_expected, hdr_invalid, empty_packet,
  Packet, be16, be32, Addresses, Transport,
}
use traffic.Packet as Tcp

-- The line that `Parse` logs where `ParsePacket` returns the error.
abbrev pub line_of : HdrError → Refusal
line_of (hdr_length s) = logged s
line_of (hdr_missing s) = logged s
line_of (hdr_expected s) = logged s
line_of (hdr_invalid s) = logged s
line_of empty_packet = silent

-- A call with the errors of the other parser.
unfoldable pub as_core : {A : Type 0} → Outcome HdrError A → Outcome Refusal A
as_core (ok a) = ok a
as_core (err e) = err (line_of e)
as_core panic = panic
as_core loops = loops

module _ {A : Type 0} where
  as_core-ok : (a : A) → as_core (ok a) ≡ ok a
  unfolding as_core
  as_core-ok a = refl

  as_core-err : (e : HdrError) → as_core {A = A} (err e) ≡ err (line_of e)
  unfolding as_core
  as_core-err e = refl

  as_core-if :
      (c : Bool) (m n : Outcome HdrError A)
      → as_core (if c then m else n) ≡ (if c then as_core m else as_core n)
  as_core-if true m n = refl
  as_core-if false m n = refl

  as_core-at : (s : List A) (i : ℕ) → as_core (at s i) ≡ at s i
  unfolding as_core
  as_core-at [] i = refl
  as_core-at (x ∷ s) zero = refl
  as_core-at (x ∷ s) (suc i) = as_core-at s i

  as_core-slice : (s : List A) (i j : ℕ) → as_core (slice s i j) ≡ slice s i j
  unfolding as_core slice
  as_core-slice s i j = elim (Bool-cases (leb i j && leb j (length s))) [
    | inl e ↦ rw e
    | inr e ↦ rw e
  ]

as_core->>= :
    {A B : Type 0} (m : Outcome HdrError A) (f : A → Outcome HdrError B)
    → as_core (m >>= f) ≡ (as_core m >>= λ a. as_core (f a))
unfolding as_core
as_core->>= (ok a) f = refl
as_core->>= (err e) f = refl
as_core->>= panic f = refl
as_core->>= loops f = refl

ruleset agree = (as_core-ok, as_core-err, as_core-if, as_core-at, as_core-slice, as_core->>=)

parse_ipv4-agrees : (ldata : Bytes) → as_core (Tcp.parse_ipv4 ldata) ≡ Core.parse_ipv4 ldata
unfolding Tcp.parse_ipv4 Core.parse_ipv4
parse_ipv4-agrees ldata = simp agree

extension-agrees :
    (ldata : Bytes) (proto total : ℕ)
    → as_core (Tcp.extension ldata proto total) ≡ Core.extension ldata proto total
unfolding Tcp.extension Core.extension
extension-agrees ldata proto total = simp agree

extensions-agrees :
    (fuel : ℕ) (ldata : Bytes) (proto total : ℕ)
    → as_core (Tcp.extensions fuel ldata proto total) ≡ Core.extensions fuel ldata proto total
unfolding Tcp.extensions Core.extensions Tcp.ipv6_extension_hdr Core.ipv6_extension_hdr
extensions-agrees zero ldata proto total = unfold as_core in refl
extensions-agrees (suc fuel) ldata proto total =
    elim (Bool-cases (proto == 0 || proto == 43 || proto == 44)) [
      | inl e ↦
          rw (e, Tcp.extensions, Core.extensions)
            (simp (as_core->>=, extension-agrees, extensions-agrees fuel))
      | inr e ↦ rw (e, Tcp.extensions, Core.extensions) (as_core-ok (proto, total))
    ]

parse_ipv6-agrees :
    (fuel : ℕ) (ldata : Bytes) → as_core (Tcp.parse_ipv6 fuel ldata) ≡ Core.parse_ipv6 fuel ldata
unfolding Tcp.parse_ipv6 Core.parse_ipv6
parse_ipv6-agrees fuel ldata = simp (agree, extensions-agrees)

parse_network-agrees :
    (fuel : ℕ) (ldata : Bytes)
    → as_core (Tcp.parse_network fuel ldata) ≡ Core.parse_network fuel ldata
unfolding Tcp.parse_network Core.parse_network
parse_network-agrees fuel ldata = simp (agree, parse_ipv4-agrees, parse_ipv6-agrees)

only_zeros-agrees : (s : Bytes) → Tcp.only_zeros s ≡ Core.only_zeros s
unfolding Tcp.only_zeros Core.only_zeros
only_zeros-agrees [] = refl
only_zeros-agrees (b ∷ s) = rw (only_zeros-agrees s)

tcp_offset-agrees :
    (ndata : Bytes) (allow_empty : Bool)
    → as_core (Tcp.tcp_offset ndata allow_empty) ≡ Core.tcp_offset ndata allow_empty
unfolding Tcp.tcp_offset Core.tcp_offset
tcp_offset-agrees ndata allow_empty = simp (agree, only_zeros-agrees)

be16-agrees : (s : Bytes) (i : ℕ) → as_core (be16 s i) ≡ be16 s i
unfolding be16
be16-agrees s i = simp agree

be32-agrees : (s : Bytes) (i : ℕ) → as_core (be32 s i) ≡ be32 s i
unfolding be32
be32-agrees s i = simp agree

module _ {E : Type 0} {A B C : Type 0} where
  >>=_assoc :
      (m : Outcome E A) (f : A → Outcome E B) (g : B → Outcome E C)
      → ((m >>= f) >>= g) ≡ (m >>= λ a. f a >>= g)
  >>=_assoc (ok a) f g = refl
  >>=_assoc (err e) f g = refl
  >>=_assoc panic f g = refl
  >>=_assoc loops f g = refl

module _ {E : Type 0} {A B : Type 0} where
  if->>= :
      (c : Bool) (m n : Outcome E A) (f : A → Outcome E B)
      → ((if c then m else n) >>= f) ≡ (if c then m >>= f else (n >>= f))
  if->>= true m n f = refl
  if->>= false m n f = refl

-- A packet of the one parser as a packet of the other: its direction is forgotten.
abbrev pub strip : Packet → NewPacket
strip p = record {
  message_id = p.message_id;
  src_ip = p.src_ip;
  dst_ip = p.dst_ip;
  version = p.version;
  src_port = p.src_port;
  dst_port = p.dst_port;
  ack = p.ack;
  seq = p.seq;
  ack_flag = p.ack_flag;
  syn_flag = p.syn_flag;
  fin_flag = p.fin_flag;
  rst_flag = p.rst_flag;
  lost = p.lost;
  retry = p.retry;
  capture_length = p.capture_length;
  timestamp = p.timestamp;
  payload = p.payload;
}

store_network-agrees :
    (net : Bytes) (p : NewPacket)
    → Core.store_network net p ≡ (
        as_core (Tcp.addresses net) >>= λ n.
        ok (record p { version = n.version; src_ip = n.src; dst_ip = n.dst }))
unfolding Tcp.addresses Core.store_network
store_network-agrees net p = simp (agree, >>=_assoc, if->>=)

parse_transport-agrees :
    (frame ldata : Bytes) (layer : ℕ × Bytes) (cp : CaptureInfo) (allow_empty : Bool)
    (p : NewPacket)
    → p.message_id ≡ 0
    → p.retry ≡ 0
    → p.timestamp ≡ cp.timestamp
    → (as_core (Tcp.parse_transport frame ldata layer cp allow_empty) >>= λ q. ok (strip q))
      ≡ Core.store_layers frame ldata layer cp allow_empty p
unfolding Tcp.parse_transport Core.store_layers Tcp.transport Core.store_transport Tcp.lost_bytes
    Core.lost_bytes
parse_transport-agrees frame ldata (proto, net) cp allow_empty p a b c = simp (
  agree, store_network-agrees, tcp_offset-agrees, be16-agrees, be32-agrees, >>=_assoc, if->>=, a, b,
  c,
)

-- On every frame, with every fuel and all options, whatever the packet held before: `Parse` fills
-- the packet that `ParsePacket` returns, and where the latter returns an error, `Parse` reports
-- failure and logs the text of that error, or nothing for an empty packet.
pub parse_packet-agrees :
    (fuel : ℕ) (p : NewPacket) (frame : Bytes) (link_len : ℕ) (cp : CaptureInfo)
    (allow_empty : Bool)
    → (as_core (Tcp.parse_packet fuel frame link_len cp allow_empty) >>= λ q. ok (strip q))
      ≡ Core.parse fuel p frame link_len cp allow_empty
unfolding Tcp.parse_packet Core.parse
parse_packet-agrees fuel p frame link_len cp allow_empty =
    let filled : (ldata : Bytes) (layer : ℕ × Bytes)
        → (as_core (Tcp.parse_transport frame ldata layer cp allow_empty) >>= λ q. ok (strip q))
          ≡ Core.store_layers frame ldata layer cp allow_empty
              (record p { retry = 0; message_id = 0; timestamp = cp.timestamp }) =
      λ ldata layer. parse_transport-agrees frame ldata layer cp allow_empty _ refl refl refl in
    simp (agree, parse_network-agrees, >>=_assoc, if->>=, filled)
