-- ===== src/Payload/Uuid.antt =====
-- proto/goreplay.go: the id of a request is the id of its response, and of no other packet's.
use Prim.Native.Nat.{bit_or}
use mathlib.Core.Path.{subst}
use traffic.Base.Bits.{bit_or_fields}
use traffic.Base.Encoding.{
  All, All-append, big_endian, big_endian-All, big_endian-injective, length-big_endian, hex,
  hex-injective,
}
use traffic.Base.Outcome.{Outcome, ok, at-drop, at}
use traffic.Packet.{be32}
use traffic.Base.{
  ℕ, zero, suc, ◌+◌, ◌-◌, ◌*◌, ◌%◌, ◌^◌, ◌<◌, true, false, [], ◌∷◌, ◌++◌, ◌≡◌, ◌↔◌, ◌⊎◌, inl, inr,
  refl, get_or, length-drop, sym, ap, ◌∙◌, arith, length, take, drop, take-length-append,
  drop-length-append,
}
use traffic.Core.{NewPacket}
use traffic.Payload.{Bytes, ip2int, uuid}

-- The text of an id: two ports, an address and a sequence number.
abbrev pub id_text : ℕ → ℕ → ℕ → ℕ → Bytes
id_text a b s t =
    hex (big_endian 8 (bit_or (bit_or (a * 2 ^ 48 % 2 ^ 64) (b * 2 ^ 32)) s) ++ big_endian 4 t)

-- The values have the widths of their types.
pub record IsInRange (a b s t : ℕ) : Type 0 where
  pub first_port : a < 2 ^ 16
  pub second_port : b < 2 ^ 16
  pub address : s < 2 ^ 32
  pub number : t < 2 ^ 32

append-injective : (s t u v : Bytes) → length s ≡ length u → s ++ t ≡ u ++ v → (s ≡ u) × (t ≡ v)
append-injective s t u v l e = (
  sym (take-length-append s t) ∙ ap (take (length s)) e ∙ rw l (take-length-append u v),
  sym (drop-length-append s t) ∙ ap (drop (length s)) e ∙ rw l (drop-length-append u v),
)

fields_apart :
    {a b s a' b' s' : ℕ}
    → a < 2 ^ 16
    → b < 2 ^ 16
    → s < 2 ^ 32
    → a' < 2 ^ 16
    → b' < 2 ^ 16
    → s' < 2 ^ 32
    → a * 2 ^ 48 + b * 2 ^ 32 + s ≡ a' * 2 ^ 48 + b' * 2 ^ 32 + s'
    → (a ≡ a') × (b ≡ b') × (s ≡ s')
fields_apart ha hb hs ha' hb' hs' e = (omega arith, omega arith, omega arith)

id_bytes : (x t : ℕ) → All (λ b. b < 256) (big_endian 8 x ++ big_endian 4 t)
id_bytes x t =
    All-append _ (big_endian 8 x) (big_endian 4 t) (big_endian-All 8 x) (big_endian-All 4 t)

-- Two ids are the same text exactly when ports, addresses and numbers agree.
pub id_text_iff :
    (a b s t a' b' s' t' : ℕ)
    → IsInRange a b s t
    → IsInRange a' b' s' t'
    → (id_text a b s t ≡ id_text a' b' s' t') ↔ ((a ≡ a') × (b ≡ b') × (s ≡ s') × (t ≡ t'))
id_text_iff a b s t a' b' s' t' r r' =
    let x = bit_or (bit_or (a * 2 ^ 48 % 2 ^ 64) (b * 2 ^ 32)) s in
    let x' = bit_or (bit_or (a' * 2 ^ 48 % 2 ^ 64) (b' * 2 ^ 32)) s' in
    let hx = bit_or_fields a b s r.first_port r.second_port r.address in
    let hx' = bit_or_fields a' b' s' r'.first_port r'.second_port r'.address in
    let eight : length (big_endian 8 x) ≡ length (big_endian 8 x') =
      length-big_endian 8 x ∙ sym (length-big_endian 8 x') in
    (
      λ e.
          let bytes = hex-injective _ _ (id_bytes x t) (id_bytes x' t') e in
          let (streams, numbers) =
            append-injective (big_endian 8 x) (big_endian 4 t) (big_endian 8 x') (big_endian 4 t')
              eight bytes in
          let same = big_endian-injective 8 x x' (omega arith) (omega arith) streams in
          let (pa, pb, ps) =
            fields_apart r.first_port r.second_port r.address r'.first_port r'.second_port
              r'.address (sym hx ∙ same ∙ hx') in
          (pa, pb, ps, big_endian-injective 4 t t' (omega arith) (omega arith) numbers),
      λ (pa, pb, ps, pt). rw (pa, pb, ps, pt),
    )

ok-injective : {E : Type 0} {x y : Bytes} → ◌≡◌ {A = Outcome E Bytes} (ok x) (ok y) → x ≡ y
ok-injective {x = x} e = ap (λ m. elim m [ ok z ↦ z | _ ↦ x ]) e

-- An IPv4 address, or an IPv6 one.
abbrev pub IsAddress : Bytes → Type 0
IsAddress ip = ((length ip ≡ 4) ⊎ (length ip ≡ 16)) × All (λ b. b < 256) ip

-- The last four bytes of an address, which are the whole of an IPv4 address.
abbrev pub low_bytes : Bytes → Bytes
low_bytes ip = drop (length ip - 4) ip

-- the number that four bytes are
number_of : Bytes → ℕ
number_of s = get_or s 0 0 * 256 ^ 3 + get_or s 1 0 * 256 ^ 2 + get_or s 2 0 * 256 + get_or s 3 0

-- Four bytes, and the number that they are.
record IsFour (s : Bytes) (n : ℕ) : Type 0 where
  a : ℕ
  b : ℕ
  c : ℕ
  d : ℕ
  bytes : s ≡ a ∷ b ∷ c ∷ d ∷ []
  number : n ≡ number_of s
  in_range : (a < 256) × (b < 256) × (c < 256) × (d < 256)

four :
    {E : Type 0} (s : Bytes)
    → length s ≡ 4
    → All (λ b. b < 256) s
    → (n : ℕ) × (be32 {E = E} s 0 ≡ ok n) × IsFour s n
unfolding number_of be32
four [] l h = absurd (omega (arith, l))
four (a ∷ []) l h = absurd (omega (arith, l))
four (a ∷ b ∷ []) l h = absurd (omega (arith, l))
four (a ∷ b ∷ c ∷ []) l h = absurd (omega (arith, l))
four (a ∷ b ∷ c ∷ d ∷ []) l h = (
  number_of (a ∷ b ∷ c ∷ d ∷ []),
  refl,
  record {
    a = a;
    b = b;
    c = c;
    d = d;
    bytes = refl;
    number = refl;
    in_range = (h.0, h.1.0, h.1.1.0, h.1.1.1.0);
  },
)
four (a ∷ b ∷ c ∷ d ∷ e ∷ s) l h = absurd (omega (arith, l))

bytes_apart :
    {a b c d a' b' c' d' : ℕ}
    → (a < 256) × (b < 256) × (c < 256) × (d < 256)
    → (a' < 256) × (b' < 256) × (c' < 256) × (d' < 256)
    → number_of (a ∷ b ∷ c ∷ d ∷ []) ≡ number_of (a' ∷ b' ∷ c' ∷ d' ∷ [])
    → (a ≡ a') × (b ≡ b') × (c ≡ c') × (d ≡ d')
unfolding number_of
bytes_apart (p, q, r, s) (p', q', r', s') e = (omega arith, omega arith, omega arith, omega arith)

IsFour-iff : (s t : Bytes) (m n : ℕ) → IsFour s m → IsFour t n → (m ≡ n) ↔ (s ≡ t)
unfolding number_of
IsFour-iff s t m n h k = (
  λ e.
      let same : number_of (h.a ∷ h.b ∷ h.c ∷ h.d ∷ []) ≡ number_of (k.a ∷ k.b ∷ k.c ∷ k.d ∷ []) =
        sym (h.number ∙ ap number_of h.bytes) ∙ e ∙ k.number ∙ ap number_of k.bytes in
      let (ea, eb, ec, ed) = bytes_apart h.in_range k.in_range same in
      h.bytes ∙ rw (ea, eb, ec, ed) (sym k.bytes),
  λ e. h.number ∙ ap number_of e ∙ sym k.number,
)

All-drop : (n : ℕ) (s : Bytes) → All (λ b. b < 256) s → All (λ b. b < 256) (drop n s)
All-drop zero s h = h
All-drop (suc n) [] h = tt
All-drop (suc n) (b ∷ s) h = All-drop n s h.1

be32-drop : {E : Type 0} (s : Bytes) (n : ℕ) → be32 {E = E} s n ≡ be32 (drop n s) 0
unfolding be32
be32-drop {E = E} s n =
    let e0 : at {E = E} s n ≡ at (drop n s) 0 = ap (at s) (omega arith) ∙ at-drop {E = E} s n 0 in
    rw (e0, at-drop {E = E} s n 1, at-drop {E = E} s n 2, at-drop {E = E} s n 3) refl

ip2int-four : {E : Type 0} (ip : Bytes) → length ip ≡ 4 → ip2int {E = E} ip ≡ be32 ip 0
unfolding ip2int
ip2int-four ip l = rw l refl

ip2int-sixteen : {E : Type 0} (ip : Bytes) → length ip ≡ 16 → ip2int {E = E} ip ≡ be32 ip 12
unfolding ip2int
ip2int-sixteen ip l = rw l refl

ip2int-low_bytes :
    {E : Type 0} (ip : Bytes)
    → IsAddress ip
    → (n : ℕ) × (ip2int {E = E} ip ≡ ok n) × IsFour (low_bytes ip) n
ip2int-low_bytes {E = E} ip (inl l, h) =
    let (n, e, w) = four {E = E} ip l h in
    let start : length ip - 4 ≡ 0 = omega (arith, l) in
    let all : low_bytes ip ≡ ip = ap (λ k. drop k ip) start in
    (n, ip2int-four {E = E} ip l ∙ e, subst (λ s. IsFour s n) (sym all) w)
ip2int-low_bytes {E = E} ip (inr l, h) =
    let start : length ip - 4 ≡ 12 = omega (arith, l) in
    let low : low_bytes ip ≡ drop 12 ip = ap (λ k. drop k ip) start in
    let (n, e, w) =
      four {E = E} (drop 12 ip) (omega (arith, l, length-drop 12 ip)) (All-drop 12 ip h) in
    (
      n,
      ip2int-sixteen {E = E} ip l ∙ be32-drop {E = E} ip 12 ∙ e,
      subst (λ s. IsFour s n) (sym low) w,
    )

-- The ports and the number have the widths of their types.
pub record HasWidths (a b t : ℕ) : Type 0 where
  pub first_port : a < 2 ^ 16
  pub second_port : b < 2 ^ 16
  pub number : t < 2 ^ 32

four-bound : (s : Bytes) (n : ℕ) → IsFour s n → n < 2 ^ 32
unfolding number_of
four-bound s n w = let (p, q, r, t) = w.in_range in omega (arith, w.number ∙ ap number_of w.bytes)

-- Of packets with IPv4 or IPv6 addresses, and ports and numbers of the widths of their types: the id of
-- a request packet is the id of a response packet exactly when the response goes back between the same
-- ports, to an address with the same last four bytes, which are the whole of an IPv4 address, and its
-- sequence number is the acknowledgement number of the request.
pub uuid_pairs_iff :
    {E : Type 0} (c r : NewPacket)
    → IsAddress c.src_ip
    → IsAddress r.dst_ip
    → HasWidths c.src_port c.dst_port c.ack
    → HasWidths r.dst_port r.src_port r.seq
    → (uuid {E = E} c true ≡ uuid r false) ↔ (
        (c.src_port ≡ r.dst_port)
        × (c.dst_port ≡ r.src_port)
        × (low_bytes c.src_ip ≡ low_bytes r.dst_ip)
        × (c.ack ≡ r.seq))
unfolding uuid
uuid_pairs_iff {E = E} c r from to h k =
    let (s, s_is, ws) = ip2int-low_bytes {E = E} c.src_ip from in
    let (d, d_is, wd) = ip2int-low_bytes {E = E} r.dst_ip to in
    let asks : uuid {E = E} c true ≡ ok (id_text c.src_port c.dst_port s c.ack) = rw s_is refl in
    let answers : uuid {E = E} r false ≡ ok (id_text r.dst_port r.src_port d r.seq) =
      rw d_is refl in
    let same = IsFour-iff (low_bytes c.src_ip) (low_bytes r.dst_ip) s d ws wd in
    let iff =
      id_text_iff c.src_port c.dst_port s c.ack r.dst_port r.src_port d r.seq
        (record {
          first_port = h.first_port;
          second_port = h.second_port;
          address = four-bound _ s ws;
          number = h.number;
        })
        (record {
          first_port = k.first_port;
          second_port = k.second_port;
          address = four-bound _ d wd;
          number = k.number;
        }) in
    (
      λ e.
          let (pa, pb, ps, pt) = iff.0 (ok-injective (sym asks ∙ e ∙ answers)) in
          (pa, pb, same.0 ps, pt),
      λ (pa, pb, ps, pt). asks ∙ ap ok (iff.1 (pa, pb, same.1 ps, pt)) ∙ sym answers,
    )
