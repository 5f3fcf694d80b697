-- ===== src/Payload/Meta.antt =====
-- proto/goreplay.go: the header line of a payload is read back.
use traffic.Base.Encoding.{ℤ, decimal, decimal-All, All, All-append, IsNumeric}
use traffic.Base.{
  ℕ, ◌<◌, [], ◌∷◌, ◌++◌, append_assoc, some, ◌≡◌, ◌≢◌, refl, ◌∙◌, ap, arith, length,
  take-length-append, drop-append_ge,
}
use traffic.Payload.{Bytes, index_byte, split, payload_header, payload_body, payload_meta}

abbrev pub Lacks : ℕ → Bytes → Type 0
Lacks c = All (λ b. b ≢ c)

pub index_byte-append :
    (s t : Bytes) (c : ℕ) → Lacks c s → index_byte (s ++ (c ∷ t)) c ≡ some (length s)
unfolding index_byte
index_byte-append [] t c h = ground arith
index_byte-append (b ∷ s) t c h = ground (arith, index_byte-append s t c h.1)

pub split-Lacks : (s : Bytes) (c : ℕ) → Lacks c s → split s c ≡ s ∷ []
unfolding split
split-Lacks [] c h = refl
split-Lacks (b ∷ s) c h = ground (arith, split-Lacks s c h.1)

pub split-append : (s t : Bytes) (c : ℕ) → Lacks c s → split (s ++ (c ∷ t)) c ≡ s ∷ split t c
unfolding split
split-append [] t c h = ground arith
split-append (b ∷ s) t c h = ground (arith, split-append s t c h.1)

Lacks-numeric : (c : ℕ) (s : Bytes) → c < b'-' → All IsNumeric s → Lacks c s
Lacks-numeric c [] lt h = tt
Lacks-numeric c (b ∷ s) lt h = (ground arith, Lacks-numeric c s lt h.1)

-- the header without its newline
unfoldable pub line : ℕ → Bytes → ℤ → ℤ → Bytes
line payload_type uuid timing latency =
    payload_type ∷ b' ' ∷ (uuid ++ (b' ' ∷ (decimal timing ++ (b' ' ∷ decimal latency))))

pub header-line :
    (payload_type : ℕ) (uuid : Bytes) (timing latency : ℤ) (body : Bytes)
    → payload_header payload_type uuid timing latency ++ body
      ≡ line payload_type uuid timing latency ++ (b'\n' ∷ body)
unfolding payload_header line
header-line payload_type uuid timing latency body = simp append_assoc

module _ (payload_type : ℕ) (uuid : Bytes) (timing latency : ℤ) (body : Bytes)
    (type_ne_newline : payload_type ≢ b'\n') (uuid_one_line : Lacks b'\n' uuid) where
  pub line-Lacks : Lacks b'\n' (line payload_type uuid timing latency)
  unfolding line
  line-Lacks =
      let l = Lacks-numeric b'\n' (decimal latency) (omega arith) (decimal-All latency) in
      let t =
        All-append _ (decimal timing) _
          (Lacks-numeric b'\n' (decimal timing) (omega arith) (decimal-All timing))
          (omega arith, l) in
      (type_ne_newline, (omega arith, All-append _ uuid _ uuid_one_line (omega arith, t)))

  -- The body behind a header line is what `PayloadBody` returns, whatever bytes it holds.
  pub payload_body-header :
      payload_body (payload_header payload_type uuid timing latency ++ body) ≡ body
  unfolding payload_body
  payload_body-header =
      let l = line payload_type uuid timing latency in
      rw
        (
          header-line payload_type uuid timing latency body,
          index_byte-append l body b'\n' line-Lacks,
          payload_body,
          header-line payload_type uuid timing latency body,
        )
        (drop-append_ge 1 l (b'\n' ∷ body))

  -- The fields of a header line are what `PayloadMeta` returns, with or without a body behind it.
  pub payload_meta-header :
      payload_type ≢ b' '
      → Lacks b' ' uuid
      → payload_meta (payload_header payload_type uuid timing latency ++ body)
        ≡ (payload_type ∷ []) ∷ uuid ∷ decimal timing ∷ decimal latency ∷ []
  unfolding payload_meta
  payload_meta-header type_ne_space uuid_one_word =
      let l = line payload_type uuid timing latency in
      rw
        (
          header-line payload_type uuid timing latency body,
          index_byte-append l body b'\n' line-Lacks,
          payload_meta,
          take-length-append l (b'\n' ∷ body),
        )
        (unfold line in
          split-append (payload_type ∷ []) _ b' ' (type_ne_space, tt)
          ∙ ap (◌∷◌ (payload_type ∷ [])) (
              split-append uuid _ b' ' uuid_one_word
              ∙ ap (◌∷◌ uuid) (
                  split-append (decimal timing) _ b' '
                    (Lacks-numeric b' ' (decimal timing) (omega arith) (decimal-All timing))
                  ∙ ap (◌∷◌ (decimal timing)) (
                      split-Lacks (decimal latency) b' ' (
                        Lacks-numeric b' ' (decimal latency) (omega arith)
                          (decimal-All latency))))))
