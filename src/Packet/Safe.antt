-- ===== src/Packet/Safe.antt =====
-- tcp/tcp_packet.go: no read of the parser of frames is out of range, and the fuel that is enough.
use traffic.Base.Outcome.{
  ok, err, panic, loops, ◌>>=◌, at-get_or, slice, slice-take-drop, slice-take, Returns, WhenEnds,
  Returns-WhenEnds, Returns-bind, WhenEnds-bind,
}
use traffic.Base.{
  ℕ, zero, suc, ◌+◌, ◌-◌, ◌*◌, ◌/◌, ◌%◌, ◌^◌, ◌≤◌, ◌<◌, Bool, true, [], ◌∷◌, ◌≡◌, ◌≢◌, ◌⊎◌, inl,
  inr, refl, arith, ltb, leb, ◌==◌, Bool-cases, length, get_or, take, drop, length-take,
  length-drop,
}
use mathlib.Core.Path.{subst}
use native.Mathlib.Nat.{le_refl}
use traffic.Packet.{
  Bytes, HdrError, Parsed, Packet, CaptureInfo, ipv6_extension_hdr, extension, extensions,
  parse_ipv4, parse_ipv6, parse_network, parse_packet, parse_transport, tcp_offset, addresses,
  Addresses, transport, Transport, be16, be32,
}

-- What the later reads need of a network layer that was cut from `ldata`.
abbrev pub NetworkFits : Bytes → ℕ × Bytes → Type 0
NetworkFits ldata (proto, net) =
    (20 ≤ length net)
    × (length net ≤ length ldata)
    × (((get_or net 0 0 / 16 == 4) ≡ true) ⊎ (40 ≤ length net))

get_or-take : (n i : ℕ) (xs : Bytes) → i < n → get_or (take n xs) i 0 ≡ get_or xs i 0
get_or-take zero i xs h = elim h [ ]
get_or-take (suc n) i [] h = refl
get_or-take (suc n) zero (x ∷ xs) h = refl
get_or-take (suc n) (suc i) (x ∷ xs) h = get_or-take n i xs (omega arith)

pub parse_ipv4-Returns :
    (ldata : Bytes)
    → (get_or ldata 0 0 / 16 == 4) ≡ true
    → Returns (NetworkFits ldata) (parse_ipv4 ldata)
unfolding parse_ipv4
parse_ipv4-Returns ldata four = ground (
  arith,
  at-get_or {E = HdrError} ldata 9 0,
  at-get_or {E = HdrError} ldata 0 0,
  slice-take-drop {E = HdrError} ldata 0 (get_or ldata 0 0 % 16 * 4),
  get_or-take (get_or ldata 0 0 % 16 * 4) 0 ldata,
  length-take (get_or ldata 0 0 % 16 * 4) ldata,
)

-- The walk stands at an offset within the packet, behind `total`.
abbrev pub Ahead : Bytes → ℕ → ℕ × ℕ → Type 0
Ahead ldata total (p, t) = (total ≤ t) × (t ≤ length ldata)

extension-Returns :
    (ldata : Bytes) (proto total : ℕ)
    → total ≤ length ldata
    → Returns (Ahead ldata total) (extension ldata proto total)
unfolding extension
extension-Returns ldata proto total h =
    ground
      (arith, at-get_or {E = HdrError} ldata (total + 1) 0, at-get_or {E = HdrError} ldata total 0)

-- a bound from below may be lowered
extensions_from :
    (fuel : ℕ) (ldata : Bytes) (p total t : ℕ)
    → total ≤ t
    → WhenEnds (Ahead ldata t) (extensions fuel ldata p t)
    → WhenEnds (Ahead ldata total) (extensions fuel ldata p t)
extensions_from fuel ldata p total t h = lower (extensions fuel ldata p t)
  where
    lower : (m : Parsed (ℕ × ℕ)) → WhenEnds (Ahead ldata t) m → WhenEnds (Ahead ldata total) m
    lower (ok (q, u)) k = (omega arith, k.1)
    lower (err e) k = tt
    lower panic k = k
    lower loops k = tt

pub extensions-WhenEnds :
    (fuel : ℕ) (ldata : Bytes) (proto total : ℕ)
    → total ≤ length ldata
    → WhenEnds (Ahead ldata total) (extensions fuel ldata proto total)
unfolding extensions
extensions-WhenEnds zero ldata proto total h = tt
extensions-WhenEnds (suc fuel) ldata proto total h = elim (Bool-cases (ipv6_extension_hdr proto)) [
  | inl e ↦
      rw (e, extensions)
        (WhenEnds-bind (Ahead ldata total) _ (extension ldata proto total) _
          (Returns-WhenEnds (Ahead ldata total) (extension ldata proto total)
            (extension-Returns ldata proto total h))
          (λ (p, t) k.
            extensions_from fuel ldata p total t k.0 (extensions-WhenEnds fuel ldata p t k.1)))
  | inr e ↦ rw (e, extensions) (le_refl total, h)
]

pub slice-network :
    (ldata : Bytes) (proto total : ℕ)
    → 40 ≤ total
    → total ≤ length ldata
    → Returns (NetworkFits ldata) (slice {E = HdrError} ldata 0 total >>= λ net. ok (proto, net))
slice-network ldata proto total h k =
    ground (arith, slice-take-drop {E = HdrError} ldata 0 total, length-take total ldata)

parse_ipv6-WhenEnds :
    (fuel : ℕ) (ldata : Bytes) → WhenEnds (NetworkFits ldata) (parse_ipv6 fuel ldata)
unfolding parse_ipv6
parse_ipv6-WhenEnds fuel ldata = elim (Bool-cases (ltb (length ldata) 40)) [
  | inl e ↦ rw e tt
  | inr e ↦
      let long : 40 ≤ length ldata = ground arith in
      rw (e, at-get_or {E = HdrError} ldata 6 0 (omega arith))
        (WhenEnds-bind (Ahead ldata 40) (NetworkFits ldata)
          (extensions fuel ldata (get_or ldata 6 0) 40) _
          (extensions-WhenEnds fuel ldata (get_or ldata 6 0) 40 long)
          (λ (p, t) k.
            Returns-WhenEnds (NetworkFits ldata)
              (slice {E = HdrError} ldata 0 t >>= λ net. ok (p, net))
              (slice-network ldata p t k.0 k.1)))
]

tcp_offset-Returns :
    (ndata : Bytes) (allow_empty : Bool)
    → Returns (λ offset. (20 ≤ offset) × (offset ≤ length ndata)) (tcp_offset ndata allow_empty)
unfolding tcp_offset
tcp_offset-Returns ndata allow_empty = ground (arith, at-get_or {E = HdrError} ndata 12 0)

addresses-Returns :
    (ldata : Bytes) (proto : ℕ) (net : Bytes)
    → NetworkFits ldata (proto, net)
    → Returns {A = Addresses} (λ _. Unit) (addresses net)
unfolding addresses
addresses-Returns ldata proto net h = ground (
  arith,
  at-get_or {E = HdrError} net 0 0,
  slice-take-drop {E = HdrError} net 12 16,
  slice-take-drop {E = HdrError} net 16 20,
  slice-take-drop {E = HdrError} net 8 24,
  slice-take-drop {E = HdrError} net 24 40,
)

pub be16-get_or :
    {E : Type 0} (s : Bytes) (i : ℕ)
    → i + 1 < length s
    → be16 {E = E} s i ≡ ok (get_or s i 0 * 256 + get_or s (i + 1) 0)
unfolding be16
be16-get_or {E} s i h = rw (at-get_or {E = E} s i 0 (omega arith), at-get_or {E = E} s (i + 1) 0 h)

pub be32-get_or :
    {E : Type 0} (s : Bytes) (i : ℕ)
    → i + 3 < length s
    → be32 {E = E} s i
      ≡ ok (
          get_or s i 0 * 256 ^ 3
          + get_or s (i + 1) 0 * 256 ^ 2
          + get_or s (i + 2) 0 * 256
          + get_or s (i + 3) 0)
unfolding be32
be32-get_or {E} s i h = rw (
  at-get_or {E = E} s i 0 (omega arith),
  at-get_or {E = E} s (i + 1) 0 (omega arith),
  at-get_or {E = E} s (i + 2) 0 (omega arith),
  at-get_or {E = E} s (i + 3) 0 h,
)

transport-Returns :
    (ndata : Bytes) (offset : ℕ)
    → 20 ≤ offset
    → offset ≤ length ndata
    → Returns {A = Transport} (λ _. Unit) (transport ndata offset)
unfolding transport
transport-Returns ndata offset h k =
    let trans = take offset ndata in
    let long : length trans ≡ offset = omega (arith, length-take offset ndata) in
    rw
      (
        slice-take {E = HdrError} ndata offset k,
        be16-get_or {E = HdrError} trans 0 (omega arith),
        be16-get_or {E = HdrError} trans 2 (omega arith),
        be32-get_or {E = HdrError} trans 4 (omega arith),
        be32-get_or {E = HdrError} trans 8 (omega arith),
        at-get_or {E = HdrError} trans 13 0 (omega arith),
        slice-take-drop {E = HdrError} ndata offset (length ndata) k (omega arith),
      )
      tt

pub parse_network-WhenEnds :
    (fuel : ℕ) (ldata : Bytes)
    → 0 < length ldata
    → WhenEnds (NetworkFits ldata) (parse_network fuel ldata)
unfolding parse_network
parse_network-WhenEnds fuel ldata h =
    rw (at-get_or {E = HdrError} ldata 0 0 h) (elim (Bool-cases (get_or ldata 0 0 / 16 == 4)) [
      | inl four ↦
          rw four (
            Returns-WhenEnds (NetworkFits ldata) (parse_ipv4 ldata) (parse_ipv4-Returns ldata four))
      | inr other ↦ rw other (elim (Bool-cases (get_or ldata 0 0 / 16 == 6)) [
        | inl six ↦ rw six (parse_ipv6-WhenEnds fuel ldata)
        | inr none_of_them ↦ rw none_of_them tt
      ])
    ])

-- what is left of the packet behind its network layer
abbrev pub cut : Bytes → Bytes → Bytes
cut ldata net = take (length ldata - length net) (drop (length net) ldata)

pub parse_transport-Returns :
    (frame ldata : Bytes) (layer : ℕ × Bytes) (cp : CaptureInfo) (allow_empty : Bool)
    → NetworkFits ldata layer
    → Returns {A = Packet} (λ _. Unit) (parse_transport frame ldata layer cp allow_empty)
unfolding parse_transport
parse_transport-Returns frame ldata (proto, net) cp allow_empty h = elim (Bool-cases (proto == 6)) [
  | inr other ↦ rw other tt
  | inl tcp ↦ rw tcp (elim (Bool-cases (leb (length frame) (length net))) [
    | inl short ↦ rw short tt
    | inr long ↦ rw long (
        rw (slice-take-drop {E = HdrError} ldata (length net) (length ldata) h.1 (le_refl _)) (
          Returns-bind (λ offset. (20 ≤ offset) × (offset ≤ length (cut ldata net))) (λ _. Unit)
            (tcp_offset (cut ldata net) allow_empty) _
            (tcp_offset-Returns (cut ldata net) allow_empty)
            (λ offset k.
              Returns-bind (λ _. Unit) (λ _. Unit) (addresses net) _
                (addresses-Returns ldata proto net h)
                (λ n _.
                  Returns-bind (λ _. Unit) (λ _. Unit) (transport (cut ldata net) offset) _
                    (transport-Returns (cut ldata net) offset k.0 k.1) (λ _ _. tt)))))
  ])
]

parse_packet-WhenEnds :
    (fuel : ℕ) (frame : Bytes) (link_len : ℕ) (cp : CaptureInfo) (allow_empty : Bool)
    → WhenEnds {A = Packet} (λ _. Unit) (parse_packet fuel frame link_len cp allow_empty)
unfolding parse_packet
parse_packet-WhenEnds fuel frame link_len cp allow_empty =
    elim (Bool-cases (ltb (length frame) link_len)) [
      | inl short ↦ rw short tt
      | inr long ↦ rw long (elim (Bool-cases (leb (length frame) link_len)) [
        | inl short ↦ rw short tt
        | inr longer ↦
            let some_left : link_len < length frame = ground arith in
            let ldata = take (length frame - link_len) (drop link_len frame) in
            let l : 0 < length ldata = omega (
              arith,
              length-take (length frame - link_len) (drop link_len frame),
              length-drop link_len frame,
            ) in
            rw longer (
              rw
                (slice-take-drop {E = HdrError} frame link_len (length frame) (omega arith)
                  (le_refl _))
                (WhenEnds-bind (NetworkFits ldata) (λ _. Unit) (parse_network fuel ldata) _
                  (parse_network-WhenEnds fuel ldata l)
                  (λ layer k.
                    Returns-WhenEnds (λ _. Unit) (parse_transport frame ldata layer cp allow_empty)
                      (parse_transport-Returns frame ldata layer cp allow_empty k))))
      ])
    ]

-- On every frame, of any bytes, with any fuel and options, the parser makes no read and no slice
-- out of range.
pub parse_packet-ne-panic :
    (fuel : ℕ) (frame : Bytes) (link_len : ℕ) (cp : CaptureInfo) (allow_empty : Bool)
    → parse_packet fuel frame link_len cp allow_empty ≢ panic
parse_packet-ne-panic fuel frame link_len cp allow_empty h =
    subst (λ m. WhenEnds {A = Packet} (λ _. Unit) m) h
      (parse_packet-WhenEnds fuel frame link_len cp allow_empty)
