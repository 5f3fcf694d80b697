-- ===== src/Input/Ports.antt =====
-- input/input_http.go: the list of ports in an address.
use traffic.Base.Encoding.{pos, decimal, All, IsNumeric, decimal-All}
use traffic.Base.{
  ℕ, ◌^◌, ◌<◌, false, List, [], ◌∷◌, ◌++◌, some, ◌≡◌, ◌≢◌, sym, refl, ap, ◌∙◌, arith, inl, inr,
}
use traffic.Http.Search.{Bytes}
use traffic.Input.{is_space, trim_left, trim_right, to_word, port_of, ports_of, parse_ports}
use traffic.Output.Names.{atoi}
use traffic.Output.Names.Number.{atoi-decimal}
use traffic.Output.Names.Ext.{Bytes-cases}
use traffic.Payload.{split}
use traffic.Payload.Meta.{Lacks, split-Lacks, split-append}

-- Ports in decimal, with commas between them.
unfoldable pub joined_ports : ℕ → List ℕ → Bytes
joined_ports p [] = decimal (pos p)
joined_ports p (q ∷ ps) = decimal (pos p) ++ (b',' ∷ joined_ports q ps)

is_space-numeric : (c : ℕ) → IsNumeric c → is_space c ≡ false
unfolding is_space
is_space-numeric c h = let (l, u) = h in ground arith

trim_left-numeric : (s : Bytes) → All IsNumeric s → trim_left s ≡ s
unfolding trim_left
trim_left-numeric [] h = refl
trim_left-numeric (c ∷ s) h = rw (trim_left, is_space-numeric c h.0) refl

trim_right-numeric : (s : Bytes) → All IsNumeric s → trim_right s ≡ s
unfolding trim_right
trim_right-numeric [] h = refl
trim_right-numeric (c ∷ []) h = rw (trim_right, is_space-numeric c h.0) refl
trim_right-numeric (c ∷ b ∷ s) h = rw (trim_right-numeric (b ∷ s) h.1) refl

Lacks-decimal : (s : Bytes) → All IsNumeric s → Lacks b',' s
Lacks-decimal [] h = tt
Lacks-decimal (c ∷ s) h = let (l, u) = h.0 in (ground arith, Lacks-decimal s h.1)

atoi-trimmed : (p : ℕ) → p < 2 ^ 16 → atoi (trim_right (trim_left (decimal (pos p)))) ≡ some (pos p)
atoi-trimmed p h =
    let d = decimal-All (pos p) in
    rw (trim_left-numeric (decimal (pos p)) d, trim_right-numeric (decimal (pos p)) d)
      (atoi-decimal (pos p) (omega arith))

port_of-pos : (p : ℕ) → p < 2 ^ 16 → port_of (pos p) ≡ p
unfolding port_of to_word
port_of-pos p h = omega arith

ports_of-cons :
    (p : ℕ) (ss : List Bytes) (ps : List ℕ)
    → p < 2 ^ 16
    → ports_of ss ≡ some ps
    → ports_of (decimal (pos p) ∷ ss) ≡ some (p ∷ ps)
unfolding ports_of
ports_of-cons p ss ps h k =
    rw (ports_of, atoi-trimmed p h, k) (ap (λ n. some (n ∷ ps)) (port_of-pos p h))

ports_of-split :
    (p : ℕ) (ps : List ℕ)
    → All (λ q. q < 2 ^ 16) (p ∷ ps)
    → ports_of (split (joined_ports p ps) b',') ≡ some (p ∷ ps)
unfolding joined_ports ports_of
ports_of-split p [] h =
    ap ports_of (split-Lacks (decimal (pos p)) b',' (Lacks-decimal _ (decimal-All (pos p))))
    ∙ ports_of-cons p [] [] h.0 refl
ports_of-split p (q ∷ ps) h =
    ap ports_of (
      split-append (decimal (pos p)) (joined_ports q ps) b','
        (Lacks-decimal _ (decimal-All (pos p))))
    ∙ ports_of-cons p (split (joined_ports q ps) b',') (q ∷ ps) h.0 (ports_of-split q ps h.1)

ports_of-ne : {ps : List ℕ} → ports_of (split [] b',') ≢ some ps
unfolding ports_of split trim_left trim_right atoi
ports_of-ne e = cc

-- Ports of 16 bits, at least one, written in decimal with commas between them, are read back.
pub parse_ports-joined_ports :
    (p : ℕ) (ps : List ℕ)
    → All (λ q. q < 2 ^ 16) (p ∷ ps)
    → parse_ports (joined_ports p ps) ≡ some (p ∷ ps)
unfolding parse_ports
parse_ports-joined_ports p ps h =
    let k = ports_of-split p ps h in
    elim (Bytes-cases (joined_ports p ps)) [
      | inl e ↦ absurd (ports_of-ne (sym (ap (λ s. ports_of (split s b',')) e) ∙ k))
      | inr (b, s, e) ↦ ap parse_ports e ∙ ap (λ t. ports_of (split t b',')) (sym e) ∙ k
    ]
