-- ===== src/Packet/Id.antt =====
-- tcp/tcp_packet.go: `MessageID`, the key under which the parser of messages keeps a message.
use traffic.Base.Bits.{bit_or_fields}
use traffic.Base.Outcome.{Outcome, ok}
use traffic.Base.{ℕ, ◌+◌, ◌*◌, ◌%◌, ◌^◌, ◌<◌, ◌≡◌, ◌↔◌, sym, ap, ◌∙◌, arith}
use traffic.Packet.{HdrError, Packet, ip2int, message_id}

-- The fields of a packet that its id is made of: both ports, and the sum of the addresses and the
-- acknowledgement number, which has room if it has 32 bits.
pub record IsFresh (p : Packet) (sum : ℕ) : Type 0 where
  pub no_id : p.message_id ≡ 0
  pub src : ℕ
  pub dst : ℕ
  pub src_is : ip2int {E = HdrError} p.src_ip ≡ ok src
  pub dst_is : ip2int {E = HdrError} p.dst_ip ≡ ok dst
  pub sum_is : sum ≡ src + dst + p.ack
  pub sum_below : sum < 2 ^ 32
  pub src_port_below : p.src_port < 2 ^ 16
  pub dst_port_below : p.dst_port < 2 ^ 16

ok-snd : {x y : Packet × ℕ} → ◌≡◌ {A = Outcome HdrError (Packet × ℕ)} (ok x) (ok y) → x.1 ≡ y.1
ok-snd {x} {y} e = ap (λ m. elim m [ ok z ↦ z.1 | _ ↦ 0 ]) e

message_id-fields :
    (p : Packet) (sum : ℕ)
    → IsFresh p sum
    → message_id {E = HdrError} p ≡ (
        let id = p.src_port * 2 ^ 48 + p.dst_port * 2 ^ 32 + sum in
        ok (record p { message_id = id }, id))
unfolding message_id
message_id-fields p sum f =
    let small : (f.src + f.dst + p.ack) % 2 ^ 64 ≡ sum = omega (arith, f.sum_is, f.sum_below) in
    rw (
      f.no_id,
      f.src_is,
      f.dst_is,
      small,
      bit_or_fields p.src_port p.dst_port sum f.src_port_below f.dst_port_below f.sum_below,
    )

separate :
    {a b c x y z : ℕ}
    → a < 2 ^ 16
    → b < 2 ^ 16
    → c < 2 ^ 32
    → x < 2 ^ 16
    → y < 2 ^ 16
    → z < 2 ^ 32
    → a * 2 ^ 48 + b * 2 ^ 32 + c ≡ x * 2 ^ 48 + y * 2 ^ 32 + z
    → (a ≡ x) × (b ≡ y) × (c ≡ z)
separate ha hb hc hx hy hz e = (omega arith, omega arith, omega arith)

-- Two packets with no id yet, whose sum of addresses and acknowledgement number has 32 bits, get
-- the same id exactly when both ports and the sums agree.
pub message_id_iff :
    (p q : Packet) (s t i j : ℕ) {p' q' : Packet}
    → IsFresh p s
    → IsFresh q t
    → message_id {E = HdrError} p ≡ ok (p', i)
    → message_id {E = HdrError} q ≡ ok (q', j)
    → (i ≡ j) ↔ ((p.src_port ≡ q.src_port) × (p.dst_port ≡ q.dst_port) × (s ≡ t))
message_id_iff p q s t i j {p'} {q'} f g hi hj =
    let ei = ok-snd (sym (message_id-fields p s f) ∙ hi) in
    let ej = ok-snd (sym (message_id-fields q t g) ∙ hj) in
    (
      λ same.
          separate f.src_port_below f.dst_port_below f.sum_below g.src_port_below g.dst_port_below
            g.sum_below (ei ∙ same ∙ sym ej),
      λ (sp, dp, e). omega arith,
    )
