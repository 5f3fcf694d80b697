-- ===== src/Message/Arrival.antt =====
-- tcp/tcp_message.go: the order in which the packets of a message arrive.
use mathlib.Core.Path.{subst}
use mathlib.Core.List.{Permᴰ}
use traffic.Base.Encoding.{All}
use traffic.Base.Perm.{All-Permᴰ}
use traffic.Base.{
  ℕ, List, [], ◌∷◌, ◌≡◌, ◌≢◌, refl, sym, ap, ◌∙◌, inl, inr, arith, if◌then◌else◌, Bool-cases,
}
use traffic.Message.Order.{
  IsSorted, IsMessage, insert_ordered, insert_ordered-IsSorted, add-IsMessage, total_payload,
  total_lost,
}
use traffic.Message.View.{arrive, arrive-insert_ordered, add-arrive, add-packet}
use traffic.Message.{Store, has_seq, seq_of, add}

-- The packets that arrive are added in turn.
unfoldable pub add_each : Store → ℕ → List ℕ → Store
add_each s i [] = s
add_each s i (r ∷ rs) = add_each (add s i r).0 i rs

unfoldable pub arrive_each : (ℕ → ℕ) → List ℕ → List ℕ → List ℕ
arrive_each seq ps [] = ps
arrive_each seq ps (r ∷ rs) = arrive_each seq (arrive seq r ps) rs

-- No two of the packets have one sequence number.
abbrev pub AreDistinct : (ℕ → ℕ) → List ℕ → Type 0
AreDistinct seq [] = Unit
AreDistinct seq (r ∷ rs) = All (λ q. seq r ≢ seq q) rs × AreDistinct seq rs

arrive-IsSorted :
    (seq : ℕ → ℕ) (r : ℕ) (ps : List ℕ) → IsSorted seq ps → IsSorted seq (arrive seq r ps)
arrive-IsSorted seq r ps h =
    rw (arrive-insert_ordered seq r ps h) (elim (Bool-cases (has_seq seq r ps)) [
      | inl e ↦ rw e h
      | inr e ↦ rw e (insert_ordered-IsSorted seq r ps h e)
    ])

has_seq-insert_ordered :
    (seq : ℕ → ℕ) (a b : ℕ) (ps : List ℕ)
    → seq a ≢ seq b
    → has_seq seq b (insert_ordered seq a ps) ≡ has_seq seq b ps
unfolding has_seq insert_ordered
has_seq-insert_ordered seq a b [] h = ground arith
has_seq-insert_ordered seq a b (p ∷ ps) h = ground (arith, has_seq-insert_ordered seq a b ps h)

insert_ordered_comm :
    (seq : ℕ → ℕ) (a b : ℕ) (ps : List ℕ)
    → seq a ≢ seq b
    → insert_ordered seq a (insert_ordered seq b ps)
      ≡ insert_ordered seq b (insert_ordered seq a ps)
unfolding insert_ordered
insert_ordered_comm seq a b [] h = ground arith
insert_ordered_comm seq a b (p ∷ ps) h = ground (arith, insert_ordered_comm seq a b ps h)

-- the packets with one more, placed in one pass
abbrev place : (ℕ → ℕ) → ℕ → List ℕ → List ℕ
place seq r ps = if has_seq seq r ps then ps else insert_ordered seq r ps

has_seq-place :
    (seq : ℕ → ℕ) (a b : ℕ) (ps : List ℕ)
    → seq a ≢ seq b
    → has_seq seq b (place seq a ps) ≡ has_seq seq b ps
has_seq-place seq a b ps h = elim (Bool-cases (has_seq seq a ps)) [
  | inl e ↦ rw (place, e) refl
  | inr e ↦ rw (place, e) (has_seq-insert_ordered seq a b ps h)
]

place_comm :
    (seq : ℕ → ℕ) (a b : ℕ) (ps : List ℕ)
    → seq a ≢ seq b
    → place seq b (place seq a ps) ≡ place seq a (place seq b ps)
place_comm seq a b ps h =
    let ab = has_seq-place seq a b ps h in
    let ba = has_seq-place seq b a ps (λ e. h (sym e)) in
    let c = insert_ordered_comm seq b a ps (λ e. h (sym e)) in
    let l : place seq b (place seq a ps)
        ≡ (if has_seq seq b ps then place seq a ps else insert_ordered seq b (place seq a ps)) =
      ap (λ t. if t then place seq a ps else insert_ordered seq b (place seq a ps)) ab in
    let r : place seq a (place seq b ps)
        ≡ (if has_seq seq a ps then place seq b ps else insert_ordered seq a (place seq b ps)) =
      ap (λ t. if t then place seq b ps else insert_ordered seq a (place seq b ps)) ba in
    l
    ∙ elim (Bool-cases (has_seq seq a ps)) [
      | inl e ↦ elim (Bool-cases (has_seq seq b ps)) [
        | inl f ↦ rw (place, e, f) refl
        | inr f ↦ rw (place, e, f) refl
      ]
      | inr e ↦ elim (Bool-cases (has_seq seq b ps)) [
        | inl f ↦ rw (place, e, f) refl
        | inr f ↦ rw (place, e, f) c
      ]
    ]
    ∙ sym r

arrive_comm :
    (seq : ℕ → ℕ) (a b : ℕ) (ps : List ℕ)
    → IsSorted seq ps
    → seq a ≢ seq b
    → arrive seq b (arrive seq a ps) ≡ arrive seq a (arrive seq b ps)
arrive_comm seq a b ps s h =
    arrive-insert_ordered seq b (arrive seq a ps) (arrive-IsSorted seq a ps s)
    ∙ ap (place seq b) (arrive-insert_ordered seq a ps s)
    ∙ place_comm seq a b ps h
    ∙ sym (ap (place seq a) (arrive-insert_ordered seq b ps s))
    ∙ sym (arrive-insert_ordered seq a (arrive seq b ps) (arrive-IsSorted seq b ps s))

AreDistinct-Permᴰ :
    (seq : ℕ → ℕ) {rs ts : List ℕ} → Permᴰ rs ts → AreDistinct seq rs → AreDistinct seq ts
AreDistinct-Permᴰ seq Permᴰ.nil h = tt
AreDistinct-Permᴰ seq (Permᴰ.cons {l₂ = ts} e p) h =
    (subst (λ a. All (λ q. seq a ≢ seq q) ts) e (All-Permᴰ _ p h.0), AreDistinct-Permᴰ seq p h.1)
AreDistinct-Permᴰ seq (Permᴰ.swap {b = b} {b' = b'} {l = l} e f) h =
    subst (λ x. AreDistinct seq (x ∷ b' ∷ l)) f
      (subst (λ y. AreDistinct seq (b ∷ y ∷ l)) e ((λ k. h.0.0 (sym k), h.1.0), (h.0.1, h.1.1)))
AreDistinct-Permᴰ seq (Permᴰ.trans p q) h = AreDistinct-Permᴰ seq q (AreDistinct-Permᴰ seq p h)

arrive_each-Permᴰ :
    (seq : ℕ → ℕ) (ps : List ℕ) {rs ts : List ℕ}
    → Permᴰ rs ts
    → IsSorted seq ps
    → AreDistinct seq rs
    → arrive_each seq ps rs ≡ arrive_each seq ps ts
unfolding arrive_each
arrive_each-Permᴰ seq ps Permᴰ.nil s d = refl
arrive_each-Permᴰ seq ps (Permᴰ.cons {a = a} {l₂ = ts} e p) s d =
    arrive_each-Permᴰ seq (arrive seq a ps) p (arrive-IsSorted seq a ps s) d.1
    ∙ ap (λ b. arrive_each seq (arrive seq b ps) ts) e
arrive_each-Permᴰ seq ps (Permᴰ.swap {a = a} {b = b} {b' = b'} {l = l} e f) s d =
    ap (λ qs. arrive_each seq qs l) (arrive_comm seq a b ps s d.0.0)
    ∙ ap (λ x. arrive_each seq (arrive seq x (arrive seq b ps)) l) e
    ∙ ap (λ x. arrive_each seq (arrive seq b' (arrive seq x ps)) l) f
arrive_each-Permᴰ seq ps (Permᴰ.trans p q) s d =
    arrive_each-Permᴰ seq ps p s d ∙ arrive_each-Permᴰ seq ps q s (AreDistinct-Permᴰ seq p d)

add_each-packet : (s : Store) (i : ℕ) (rs : List ℕ) → (add_each s i rs).packet ≡ s.packet
unfolding add_each
add_each-packet s i [] = refl
add_each-packet s i (r ∷ rs) = add_each-packet (add s i r).0 i rs ∙ add-packet s i r

add_each-arrive_each :
    (s : Store) (i : ℕ) (rs : List ℕ)
    → ((add_each s i rs).message i).packets ≡ arrive_each (seq_of s) (s.message i).packets rs
unfolding add_each arrive_each
add_each-arrive_each s i [] = refl
add_each-arrive_each s i (r ∷ rs) =
    add_each-arrive_each (add s i r).0 i rs
    ∙ ap (λ packet. arrive_each (λ p. (packet p).seq) ((add s i r).0.message i).packets rs)
        (add-packet s i r)
    ∙ ap (λ ps. arrive_each (seq_of s) ps rs) (add-arrive s i r)

add_each-IsMessage :
    (s : Store) (i : ℕ) (rs : List ℕ) → IsMessage s i → IsMessage (add_each s i rs) i
unfolding add_each
add_each-IsMessage s i [] h = h
add_each-IsMessage s i (r ∷ rs) h = add_each-IsMessage (add s i r).0 i rs (add-IsMessage s i r h)

-- What a message has of its packets.
abbrev pub Contents : Type 0
Contents = List ℕ × ℕ × ℕ

abbrev pub contents : Store → ℕ → Contents
contents s i = ((s.message i).packets, (s.message i).size, (s.message i).lost_data)

contents-IsMessage :
    (s : Store) (i : ℕ)
    → IsMessage s i
    → contents s i ≡ (
      (s.message i).packets,
      total_payload s.packet (s.message i).packets,
      total_lost s.packet (s.message i).packets,
    )
contents-IsMessage s i h = rw (h.size_total, h.lost_total) refl

-- Whatever the order in which packets of different sequence numbers arrive at a well-formed message,
-- it ends with the same packets in the same order, and with the same counts of bytes.
pub add_each-perm :
    (s : Store) (i : ℕ) (rs ts : List ℕ)
    → IsMessage s i
    → AreDistinct (seq_of s) rs
    → Permᴰ rs ts
    → contents (add_each s i rs) i ≡ contents (add_each s i ts) i
add_each-perm s i rs ts h d p =
    let same : ((add_each s i rs).message i).packets ≡ ((add_each s i ts).message i).packets =
      add_each-arrive_each s i rs
      ∙ arrive_each-Permᴰ (seq_of s) (s.message i).packets p h.sorted d
      ∙ sym (add_each-arrive_each s i ts) in
    let packet : (add_each s i rs).packet ≡ (add_each s i ts).packet =
      add_each-packet s i rs ∙ sym (add_each-packet s i ts) in
    contents-IsMessage (add_each s i rs) i (add_each-IsMessage s i rs h)
    ∙ ap
        (λ q. (
          ((add_each s i rs).message i).packets,
          total_payload q ((add_each s i rs).message i).packets,
          total_lost q ((add_each s i rs).message i).packets,
        ))
        packet
    ∙ ap (λ l. (l, total_payload (add_each s i ts).packet l, total_lost (add_each s i ts).packet l))
        same
    ∙ sym (contents-IsMessage (add_each s i ts) i (add_each-IsMessage s i ts h))
