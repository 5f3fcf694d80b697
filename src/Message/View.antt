-- ===== src/Message/View.antt =====
-- tcp/tcp_message.go: a message as a map from sequence numbers to packets.
use mathlib.Core.Path.{subst, fun_ext}
use traffic.Base.Encoding.{All}
use traffic.Base.{
  ℕ, ◌<◌, true, false, List, [], ◌∷◌, Option, none, some, ◌≡◌, refl, sym, ap, ◌∙◌, inl, inr, arith,
  ltb, ◌==◌, if◌then◌else◌, Bool-cases, Option-cases, ==_iff,
}
use traffic.Message.Order.{
  IsSorted, IsMessage, insert_ordered, insert_packet-insert_ordered, update_same,
}
use traffic.Message.{Store, has_seq, insert_packet, seq_of, add}

-- the packet of a sequence number
abbrev pub find : (ℕ → ℕ) → ℕ → List ℕ → Option ℕ
find seq n [] = none
find seq n (p ∷ ps) = if seq p == n then some p else find seq n ps

-- A map that takes an entry only where it has none.
abbrev pub put_first : (ℕ → Option ℕ) → ℕ → ℕ → ℕ → Option ℕ
put_first view k r n = elim (view n) [ some p ↦ some p | none ↦ if k == n then some r else none ]

-- The packets of a message by their sequence numbers.
abbrev pub view : Store → ℕ → ℕ → Option ℕ
view s i n = find (seq_of s) n (s.message i).packets

find_above : (seq : ℕ → ℕ) (n : ℕ) (ps : List ℕ) → All (λ q. n < seq q) ps → find seq n ps ≡ none
find_above seq n [] h = refl
find_above seq n (p ∷ ps) h = let k = h.0 in ground (arith, find_above seq n ps h.1)

has_seq-find :
    (seq : ℕ → ℕ) (r : ℕ) (ps : List ℕ) → has_seq seq r ps ≡ false → find seq (seq r) ps ≡ none
unfolding has_seq
has_seq-find seq r [] h = refl
has_seq-find seq r (p ∷ ps) h = ground (arith, has_seq-find seq r ps)

find-has_seq :
    (seq : ℕ → ℕ) (r : ℕ) (ps : List ℕ)
    → has_seq seq r ps ≡ true
    → (p : ℕ) × (find seq (seq r) ps ≡ some p)
unfolding has_seq
find-has_seq seq r [] h = absurd cc
find-has_seq seq r (p ∷ ps) h = elim (Bool-cases (seq p == seq r)) [
  | inl e ↦ (p, rw e refl)
  | inr e ↦ rw e (find-has_seq seq r ps (simp e at h))
]

find-insert_ordered_ne :
    (seq : ℕ → ℕ) (r n : ℕ) (ps : List ℕ)
    → (seq r == n) ≡ false
    → find seq n (insert_ordered seq r ps) ≡ find seq n ps
unfolding insert_ordered
find-insert_ordered_ne seq r n [] h = rw h refl
find-insert_ordered_ne seq r n (p ∷ ps) h = elim (Bool-cases (ltb (seq r) (seq p))) [
  | inl e ↦ rw (e, insert_ordered, h) refl
  | inr e ↦ rw (e, insert_ordered, find-insert_ordered_ne seq r n ps h) refl
]

find-insert_ordered_self :
    (seq : ℕ → ℕ) (r : ℕ) (ps : List ℕ)
    → has_seq seq r ps ≡ false
    → find seq (seq r) (insert_ordered seq r ps) ≡ some r
unfolding insert_ordered has_seq
find-insert_ordered_self seq r [] h = ground arith
find-insert_ordered_self seq r (p ∷ ps) h = ground (arith, find-insert_ordered_self seq r ps)

-- What the arrival of a packet makes of the packets of a message.
unfoldable pub arrive : (ℕ → ℕ) → ℕ → List ℕ → List ℕ
arrive seq r ps = if has_seq seq r ps then ps else insert_packet seq r ps

pub arrive-insert_ordered :
    (seq : ℕ → ℕ) (r : ℕ) (ps : List ℕ)
    → IsSorted seq ps
    → arrive seq r ps ≡ (if has_seq seq r ps then ps else insert_ordered seq r ps)
unfolding arrive
arrive-insert_ordered seq r ps h = elim (Bool-cases (has_seq seq r ps)) [
  | inl e ↦ rw e refl
  | inr e ↦ rw e (insert_packet-insert_ordered seq r ps h e)
]

put_first_taken : (f : ℕ → Option ℕ) (k r n p : ℕ) → f n ≡ some p → put_first f k r n ≡ some p
put_first_taken f k r n p h = rw (put_first, h) refl

put_first_new : (f : ℕ → Option ℕ) (k r : ℕ) → f k ≡ none → put_first f k r k ≡ some r
put_first_new f k r h = rw (put_first, h) (ground arith)

put_first_ne : (f : ℕ → Option ℕ) (k r n : ℕ) → (k == n) ≡ false → put_first f k r n ≡ f n
put_first_ne f k r n h = elim (Option-cases (f n)) [
  | inl e ↦ rw (put_first, e, h) refl
  | inr (p, e) ↦ rw (put_first, e) refl
]

find-arrive_self :
    (seq : ℕ → ℕ) (r : ℕ) (ps : List ℕ)
    → IsSorted seq ps
    → find seq (seq r) (arrive seq r ps) ≡ put_first (λ m. find seq m ps) (seq r) r (seq r)
find-arrive_self seq r ps h =
    rw (arrive-insert_ordered seq r ps h) (elim (Bool-cases (has_seq seq r ps)) [
      | inl e ↦
          let (p, f) = find-has_seq seq r ps e in
          rw e (f ∙ sym (put_first_taken (λ m. find seq m ps) (seq r) r (seq r) p f))
      | inr e ↦ rw e (
          find-insert_ordered_self seq r ps e
          ∙ sym (put_first_new (λ m. find seq m ps) (seq r) r (has_seq-find seq r ps e)))
    ])

pub find-arrive :
    (seq : ℕ → ℕ) (r n : ℕ) (ps : List ℕ)
    → IsSorted seq ps
    → find seq n (arrive seq r ps) ≡ put_first (λ m. find seq m ps) (seq r) r n
find-arrive seq r n ps h = elim (Bool-cases (seq r == n)) [
  | inl same ↦
      subst (λ m. find seq m (arrive seq r ps) ≡ put_first (λ l. find seq l ps) (seq r) r m)
        ((==_iff (seq r) n).0 same) (find-arrive_self seq r ps h)
  | inr other ↦ rw (arrive-insert_ordered seq r ps h) (elim (Bool-cases (has_seq seq r ps)) [
    | inl e ↦ rw e (sym (put_first_ne (λ m. find seq m ps) (seq r) r n other))
    | inr e ↦ rw e (
        find-insert_ordered_ne seq r n ps other
        ∙ sym (put_first_ne (λ m. find seq m ps) (seq r) r n other))
  ])
]

pub add-packet : (s : Store) (i r : ℕ) → (add s i r).0.packet ≡ s.packet
unfolding add
add-packet s i r = elim (Bool-cases (has_seq (seq_of s) r (s.message i).packets)) [
  | inl e ↦ rw (e, add) refl
  | inr e ↦ rw (e, add) refl
]

pub add-arrive :
    (s : Store) (i r : ℕ)
    → ((add s i r).0.message i).packets ≡ arrive (seq_of s) r (s.message i).packets
unfolding add arrive
add-arrive s i r = elim (Bool-cases (has_seq (seq_of s) r (s.message i).packets)) [
  | inl e ↦ rw (e, add, arrive) refl
  | inr e ↦ rw (e, add, arrive) (ap (λ m. m.packets) (update_same s.message i _))
]

-- Of the packets that arrive with one sequence number a message keeps the first: adding a packet to
-- a well-formed message is, on the map from sequence numbers to packets, an entry that does not
-- replace another.
pub view-add :
    (s : Store) (i r : ℕ)
    → IsMessage s i
    → view (add s i r).0 i ≡ put_first (view s i) (seq_of s r) r
view-add s i r h = fun_ext λ n.
    ap (λ packet. find (λ p. (packet p).seq) n ((add s i r).0.message i).packets) (add-packet s i r)
    ∙ ap (find (seq_of s) n) (add-arrive s i r)
    ∙ find-arrive (seq_of s) r n (s.message i).packets h.sorted
