-- ===== src/Packet/Walk.antt =====
-- The loop of tcp/tcp_packet.go over the IPv6 extension headers: when it ends, and the fuel.
use traffic.Base.Outcome.{ok, err, panic, loops, ◌>>=◌, at-get_or}
use traffic.Base.{
  ℕ, zero, suc, ◌+◌, ◌-◌, ◌*◌, ◌%◌, ◌≤◌, ◌<◌, true, ◌≡◌, ◌≢◌, ◌⊎◌, inl, inr, refl, ◌∙◌, arith,
  Bool-cases, length, get_or,
}
use native.Mathlib.Decide.{ℕ_discrete}
use traffic.Packet.{Bytes, HdrError, Parsed, ipv6_extension_hdr, extension, extensions}

-- the protocols whose extension header holds a length byte
abbrev pub Measured : ℕ → Type 0
Measured proto = (proto ≡ 0) ⊎ (proto ≡ 43)

abbrev pub Diverges : Bytes → ℕ → ℕ → Type 0
Diverges ldata proto total = (fuel : ℕ) → extensions fuel ldata proto total ≡ loops

-- A round at a header of length byte 255 stays where it is.
extension_wraps :
    (ldata : Bytes) (proto total : ℕ)
    → Measured proto
    → total + 8 ≤ length ldata
    → (get_or ldata (total + 1) 0 + 1) % 256 ≡ 0
    → extension ldata proto total ≡ ok (get_or ldata total 0, total + 0)
unfolding extension
extension_wraps ldata proto total m fits full = ground (
  arith,
  at-get_or {E = HdrError} ldata (total + 1) 0 (omega arith),
  at-get_or {E = HdrError} ldata total 0 (omega arith),
)

Measured-extension : (proto : ℕ) → Measured proto → ipv6_extension_hdr proto ≡ true
unfolding ipv6_extension_hdr
Measured-extension proto m = ground arith

extensions_next :
    (ldata : Bytes) (fuel proto total p t : ℕ)
    → ipv6_extension_hdr proto ≡ true
    → extension ldata proto total ≡ ok (p, t)
    → extensions (suc fuel) ldata proto total ≡ extensions fuel ldata p t
unfolding extensions
extensions_next ldata fuel proto total p t e r = rw (e, extensions, r, ◌>>=◌)

pub extensions-Diverges :
    (ldata : Bytes) (total : ℕ)
    → Measured (get_or ldata total 0)
    → total + 8 ≤ length ldata
    → (get_or ldata (total + 1) 0 + 1) % 256 ≡ 0
    → (proto : ℕ) → Measured proto
    → Diverges ldata proto total
extensions-Diverges ldata total again fits full proto m zero = unfold extensions in refl
extensions-Diverges ldata total again fits full proto m (suc fuel) =
    let same : total + 0 ≡ total = omega arith in
    extensions_next ldata fuel proto total _ _ (Measured-extension proto m)
      (extension_wraps ldata proto total m fits full)
    ∙ rw same (extensions-Diverges ldata total again fits full (get_or ldata total 0) again fuel)

-- What a round does at an extension header that it accepts: it goes on by at least eight bytes, or
-- it stays at a header of length byte 255.
pub extension_round :
    (ldata : Bytes) (proto total p t : ℕ)
    → extension ldata proto total ≡ ok (p, t)
    → ((total + 8 ≤ t) × (t ≤ length ldata))
      ⊎ ((t ≡ total)
          × (proto ≢ 44)
          × (total + 8 ≤ length ldata)
          × (p ≡ get_or ldata total 0)
          × ((get_or ldata (total + 1) 0 + 1) % 256 ≡ 0))
unfolding extension
extension_round ldata proto total p t r =
    ground
      (arith, at-get_or {E = HdrError} ldata (total + 1) 0, at-get_or {E = HdrError} ldata total 0)

ok-ne-loops : {x : ℕ × ℕ} → ◌≢◌ {A = Parsed (ℕ × ℕ)} (ok x) loops
ok-ne-loops h = cc

decides_by_round :
    (ldata : Bytes) (n proto total : ℕ)
    → ((p t : ℕ)
        → extension ldata proto total ≡ ok (p, t)
        → extensions n ldata p t ≡ loops
        → Diverges ldata p t)
    → extensions (suc n) ldata proto total ≡ loops
    → Diverges ldata proto total
unfolding extensions
decides_by_round ldata n proto total rest h zero = refl
decides_by_round ldata n proto total rest h (suc fuel) =
    elim (Bool-cases (ipv6_extension_hdr proto)) [
      | inl e ↦ rw (e, extensions) (go (extension ldata proto total) refl (rw (e, extensions) at h))
      | inr e ↦ absurd (ok-ne-loops (rw (e, extensions) at h))
    ]
  where
    go :
        (r : Parsed (ℕ × ℕ))
        → extension ldata proto total ≡ r
        → (r >>= (λ (p, t). extensions n ldata p t)) ≡ loops
        → (r >>= (λ (p, t). extensions fuel ldata p t)) ≡ loops
    go (ok (p, t)) e x = rest p t e x fuel
    go (err x) e l = cc
    go panic e l = cc
    go loops e l = refl

extension_not-Measured : (proto : ℕ) → ipv6_extension_hdr proto ≡ true → proto ≢ 44 → Measured proto
unfolding ipv6_extension_hdr
extension_not-Measured proto e n = ground arith

Diverges-not_extension :
    (ldata : Bytes) (n proto total : ℕ)
    → extensions (suc n) ldata proto total ≡ loops
    → ipv6_extension_hdr proto ≡ true
unfolding extensions
Diverges-not_extension ldata n proto total h = elim (Bool-cases (ipv6_extension_hdr proto)) [
  | inl e ↦ e
  | inr e ↦ absurd (ok-ne-loops (rw (e, extensions) at h))
]

pub walk_decides :
    (n : ℕ) (ldata : Bytes) (proto total : ℕ)
    → 2 * (length ldata - total) < n
    → extensions n ldata proto total ≡ loops
    → Diverges ldata proto total
walk_decides zero ldata proto total big = absurd (omega arith)
walk_decides (suc zero) ldata proto total big = decides_by_round ldata zero proto total λ p t e h.
    absurd (elim (extension_round ldata proto total p t e) [
      | inl (far, fits) ↦ omega arith
      | inr (same, other, fits, next, full) ↦ omega arith
    ])
walk_decides (suc (suc n)) ldata proto total big =
    decides_by_round ldata (suc n) proto total λ p t e h.
      elim (extension_round ldata proto total p t e) [
        | inl (far, fits) ↦ walk_decides (suc n) ldata p t (omega arith) h
        | inr (same, other, fits, next, full) ↦ elim (ℕ_discrete p 44) [
          | yes fragment ↦
              decides_by_round ldata n p t
                (λ p' t' e' h'. elim (extension_round ldata p t p' t' e') [
                  | inl (far, fits') ↦ walk_decides n ldata p' t' (omega arith) h'
                  | inr (same', other', fits', next', full') ↦ absurd (other' fragment)
                ])
                h
          | no measured ↦
              let again =
                extension_not-Measured p (Diverges-not_extension ldata n p t h) measured in
              extensions-Diverges ldata t (rw (next, ← same) at again) (omega arith)
                (rw (← same) at full) p again
        ]
      ]
