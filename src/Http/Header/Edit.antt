-- ===== src/Http/Header/Edit.antt =====
-- proto/proto.go: the spaces about a header's value.
use traffic.Base.Outcome.{ok, panic, slice, Returns, Returns-bind, at-get_or, slice-take-drop}
use traffic.Base.{
  take, drop, not_ltb, ℕ, zero, suc, ◌+◌, ◌-◌, ◌≤◌, ◌<◌, Option, some, ◌≡◌, refl, inl, inr, arith,
  ltb, length, get_or, Bool-cases, ltb→lt, not_leb,
}
use traffic.Http.Header.{Place, trim_front, trim_back, trim}
use traffic.Http.Search.{Bytes}
use traffic.Packet.{HdrError}

trim_front-within :
    (rounds : ℕ) (payload : Bytes) (low start stop : ℕ)
    → stop ≤ length payload
    → low ≤ start
    → start ≤ stop
    → Returns {E = HdrError} (λ n. (low ≤ n) × (n ≤ stop)) (trim_front rounds payload start stop)
unfolding trim_front
trim_front-within zero payload low start stop h b l = (b, l)
trim_front-within (suc rounds) payload low start stop h b l =
    elim (Bool-cases (ltb (start + 1) stop)) [
      | inr e ↦ rw (e, trim_front) (b, l)
      | inl e ↦
          let k : start + 1 < stop = ltb→lt (start + 1) stop e in
          rw (e, trim_front, at-get_or {E = HdrError} payload start 0 (omega arith))
            (elim (Bool-cases (ltb (get_or payload start 0) 0x21)) [
              | inl c ↦
                  rw (c, Returns)
                    (trim_front-within rounds payload low (start + 1) stop h (omega arith)
                      (omega arith))
              | inr c ↦ rw (c, Returns) (b, l)
            ])
    ]

trim_back-within :
    (rounds : ℕ) (payload : Bytes) (start stop high : ℕ)
    → stop ≤ length payload
    → stop ≤ high
    → start ≤ stop
    → Returns {E = HdrError} (λ n. (start ≤ n) × (n ≤ high)) (trim_back rounds payload start stop)
unfolding trim_back
trim_back-within zero payload start stop high h b l = (l, b)
trim_back-within (suc rounds) payload start stop high h b l =
    elim (Bool-cases (ltb (start + 1) stop)) [
      | inr e ↦ rw (e, trim_back) (l, b)
      | inl e ↦
          let k : start + 1 < stop = ltb→lt (start + 1) stop e in
          rw (e, trim_back, at-get_or {E = HdrError} payload (stop - 1) 0 (omega arith))
            (elim (Bool-cases (ltb (get_or payload (stop - 1) 0) 0x21)) [
              | inl c ↦
                  rw (c, Returns)
                    (trim_back-within rounds payload start (stop - 1) high (omega arith)
                      (omega arith) (omega arith))
              | inr c ↦ rw (c, Returns) (l, b)
            ])
    ]

-- The bounds that a trimmed value has in the payload.
pub record IsTrimmed (payload : Bytes) (p : Place) (value : Bytes) (place : Option Place)
    : Type 0 where
  pub value_start : ℕ
  pub value_stop : ℕ
  pub place_some : place ≡ some (record p { value_start = value_start; value_stop = value_stop })
  pub not_before : p.value_start ≤ value_start
  pub in_order : value_start ≤ value_stop
  pub not_behind : value_stop ≤ p.value_stop
  pub value_slice : value ≡ take (value_stop - value_start) (drop value_start payload)

-- For a header's value that does not end before it begins, and ends in the payload, the trimming
-- returns a part of the value: it does not panic.
pub trim-Returns :
    (payload : Bytes) (p : Place)
    → p.value_start ≤ p.value_stop
    → p.value_stop ≤ length payload
    → Returns {E = HdrError} (λ r. IsTrimmed payload p r.0 r.1) (trim payload p)
unfolding trim
trim-Returns payload p h l =
    Returns-bind _ _ (trim_front (length payload) payload p.value_start p.value_stop) _
      (trim_front-within (length payload) payload p.value_start p.value_start p.value_stop l
        (omega arith) h)
      (λ start k.
        Returns-bind _ _ (trim_back (length payload) payload start p.value_stop) _
          (trim_back-within (length payload) payload start p.value_stop p.value_stop l (omega arith)
            k.1)
          (λ stop m.
            rw (slice-take-drop {E = HdrError} payload start stop m.0 (omega (arith, m.1)))
              (record {
                value_start = start;
                value_stop = stop;
                place_some = refl;
                not_before = k.0;
                in_order = m.0;
                not_behind = m.1;
                value_slice = refl;
              })))

trim_front-stops :
    (rounds : ℕ) (payload : Bytes) (start stop : ℕ)
    → stop ≤ start
    → trim_front {E = HdrError} rounds payload start stop ≡ ok start
unfolding trim_front
trim_front-stops zero payload start stop h = refl
trim_front-stops (suc rounds) payload start stop h =
    rw (not_ltb (start + 1) stop (omega arith), trim_front) refl

trim_back-stops :
    (rounds : ℕ) (payload : Bytes) (start stop : ℕ)
    → stop ≤ start
    → trim_back {E = HdrError} rounds payload start stop ≡ ok stop
unfolding trim_back
trim_back-stops zero payload start stop h = refl
trim_back-stops (suc rounds) payload start stop h =
    rw (not_ltb (start + 1) stop (omega arith), trim_back) refl

-- The trimming panics on a value that ends before it begins.
pub trim-panics :
    (payload : Bytes) (p : Place)
    → p.value_stop < p.value_start
    → trim {E = HdrError} payload p ≡ panic
unfolding trim slice
trim-panics payload p h =
    rw
      (
        trim_front-stops (length payload) payload p.value_start p.value_stop (omega arith),
        trim_back-stops (length payload) payload p.value_start p.value_stop (omega arith),
        slice,
        not_leb p.value_start p.value_stop h,
      )
      refl
