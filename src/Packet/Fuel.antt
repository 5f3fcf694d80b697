-- ===== src/Packet/Fuel.antt =====
-- tcp/tcp_packet.go: the fuel of the parser of frames. It is enough, and there are frames on which
-- the loop over the extension headers never ends.
use mathlib.Core.Path.{subst}
use native.Mathlib.Nat.{le_refl}
use traffic.Base.Outcome.{
  loops, at-get_or, slice-take-drop, slice-append, WhenEnds, Returns-ne-loops, bind-eq-loops,
}
use traffic.Base.{
  ℕ, ◌+◌, ◌-◌, ◌*◌, ◌/◌, ◌≤◌, ◌<◌, Bool, ◌++◌, ◌≡◌, inl, inr, refl, arith, ltb, leb, ◌==◌,
  Bool-cases, not_ltb, not_leb, length, get_or, take, drop, length-take, length-drop, length-append,
}
use traffic.Packet.Safe.{
  NetworkFits, Ahead, slice-network, parse_transport-Returns, extensions-WhenEnds,
  parse_network-WhenEnds,
}
use traffic.Packet.Walk.{Measured, walk_decides, extensions-Diverges}
use traffic.Packet.{
  Bytes, HdrError, CaptureInfo, extensions, parse_ipv6, parse_network, parse_packet,
}

-- The fuel that the parser is given on a frame.
abbrev pub fuel_for : Bytes → ℕ
fuel_for frame = 2 * length frame + 1

parse_ipv6_decides :
    (n : ℕ) (ldata : Bytes)
    → 2 * length ldata < n
    → parse_ipv6 n ldata ≡ loops
    → (fuel : ℕ) → parse_ipv6 fuel ldata ≡ loops
unfolding parse_ipv6
parse_ipv6_decides n ldata big h fuel = elim (Bool-cases (ltb (length ldata) 40)) [
  | inl e ↦ rw e (rw e at h)
  | inr e ↦
      let long : 40 ≤ length ldata = ground arith in
      let first = at-get_or {E = HdrError} ldata 6 0 (omega arith) in
      let walk = extensions n ldata (get_or ldata 6 0) 40 in
      rw (e, first)
        (elim (bind-eq-loops walk _ (rw (e, first) at h)) [
          | inl l ↦ rw (walk_decides n ldata (get_or ldata 6 0) 40 (omega arith) l fuel) refl
          | inr ((p, t), r, l) ↦
              let k : Ahead ldata 40 (p, t) =
                subst (WhenEnds (Ahead ldata 40)) r
                  (extensions-WhenEnds n ldata (get_or ldata 6 0) 40 long) in
              absurd (Returns-ne-loops (NetworkFits ldata) _ (slice-network ldata p t k.0 k.1) l)
        ])
]

parse_network_decides :
    (n : ℕ) (ldata : Bytes)
    → 2 * length ldata < n
    → 0 < length ldata
    → parse_network n ldata ≡ loops
    → (fuel : ℕ) → parse_network fuel ldata ≡ loops
unfolding parse_network
parse_network_decides n ldata big some_left h fuel =
    let first = at-get_or {E = HdrError} ldata 0 0 some_left in
    rw first (elim (Bool-cases (get_or ldata 0 0 / 16 == 4)) [
      | inl four ↦ rw four (rw (first, four) at h)
      | inr other ↦ rw other (elim (Bool-cases (get_or ldata 0 0 / 16 == 6)) [
        | inl six ↦ rw six (parse_ipv6_decides n ldata big (rw (first, other, six) at h) fuel)
        | inr neither ↦ rw neither (rw (first, other, neither) at h)
      ])
    ])

-- The fuel is enough: if the parser has not ended on a frame of n bytes after 2 n + 1 rounds of the
-- loop over the extension headers, it ends with no fuel whatever.
pub parse_packet_decides :
    (frame : Bytes) (link_len : ℕ) (cp : CaptureInfo) (allow_empty : Bool)
    → parse_packet (fuel_for frame) frame link_len cp allow_empty ≡ loops
    → (fuel : ℕ) → parse_packet fuel frame link_len cp allow_empty ≡ loops
unfolding parse_packet
parse_packet_decides frame link_len cp allow_empty h fuel =
    elim (Bool-cases (ltb (length frame) link_len)) [
      | inl short ↦ rw short (rw short at h)
      | inr long ↦ rw long (elim (Bool-cases (leb (length frame) link_len)) [
        | inl short ↦ rw short (rw (long, short) at h)
        | inr longer ↦
            let some_left : link_len < length frame = ground arith in
            let n = fuel_for frame in
            let ldata = take (length frame - link_len) (drop link_len frame) in
            let l : length ldata ≡ length frame - link_len = omega (
              arith,
              length-take (length frame - link_len) (drop link_len frame),
              length-drop link_len frame,
            ) in
            let cut =
              slice-take-drop {E = HdrError} frame link_len (length frame) (omega arith)
                (le_refl _) in
            rw longer (
              rw cut (elim (bind-eq-loops (parse_network n ldata) _ (rw (long, longer, cut) at h)) [
                | inl e ↦ rw (parse_network_decides n ldata (omega arith) (omega arith) e fuel) refl
                | inr (layer, r, e) ↦
                    let k : NetworkFits ldata layer =
                      subst (WhenEnds (NetworkFits ldata)) r
                        (parse_network-WhenEnds n ldata (omega arith)) in
                    absurd (
                      Returns-ne-loops (λ _. Unit) _
                        (parse_transport-Returns frame ldata layer cp allow_empty k) e)
              ]))
      ])
    ]

-- An IPv6 packet of at least 48 bytes, behind any link header, never lets the parser end if its
-- next header and the next header of the first extension header are hop-by-hop options or routing,
-- and the length byte of that extension header is 255.
pub parse_packet-loops :
    (link ldata : Bytes) (cp : CaptureInfo) (allow_empty : Bool)
    → get_or ldata 0 0 / 16 ≡ 6
    → 48 ≤ length ldata
    → Measured (get_or ldata 6 0)
    → Measured (get_or ldata 40 0)
    → get_or ldata 41 0 ≡ 255
    → (fuel : ℕ) → parse_packet fuel (link ++ ldata) (length link) cp allow_empty ≡ loops
unfolding parse_packet parse_network parse_ipv6
parse_packet-loops link ldata cp allow_empty six long m again full fuel =
    let l = length-append link ldata in
    let in_link = not_ltb (length (link ++ ldata)) (length link) (omega arith) in
    let some_left = not_leb (length (link ++ ldata)) (length link) (omega arith) in
    let first = at-get_or {E = HdrError} ldata 0 0 (omega arith) in
    let next = at-get_or {E = HdrError} ldata 6 0 (omega arith) in
    let whole = not_ltb (length ldata) 40 (omega arith) in
    let walk = extensions-Diverges ldata 40 again long (omega arith) (get_or ldata 6 0) m fuel in
    rw (in_link, some_left, slice-append {E = HdrError} link ldata, first, six, whole, next, walk)
