-- ===== src/Message/Order.antt =====
-- tcp/tcp_message.go: the order of the packets of a message.
use traffic.Base.Encoding.{All}
use traffic.Base.{
  ℕ, ◌+◌, ◌≤◌, ◌<◌, false, List, [], ◌∷◌, ◌++◌, ◌≡◌, refl, sym, ap, inl, inr, arith, ltb, ◌==◌,
  if◌then◌else◌, length, Bool-cases, ltb→lt, not_ltb,
}
use traffic.Packet.{Packet}
use traffic.Message.{
  Store, Message, has_seq, insert_middle, get_last, insert_packet, seq_of, add, update,
}

-- Sequence numbers increase along the packets.
unfoldable pub IsSorted : (ℕ → ℕ) → List ℕ → Type 0
IsSorted seq [] = Unit
IsSorted seq (p ∷ ps) = All (λ q. seq p < seq q) ps × IsSorted seq ps

-- A packet's place found in one pass from the front.
unfoldable pub insert_ordered : (ℕ → ℕ) → ℕ → List ℕ → List ℕ
insert_ordered seq r [] = r ∷ []
insert_ordered seq r (p ∷ ps) =
    if ltb (seq r) (seq p) then r ∷ p ∷ ps else p ∷ insert_ordered seq r ps

first_le_last :
    (seq : ℕ → ℕ) (p : ℕ) (ps : List ℕ) → IsSorted seq (p ∷ ps) → seq p ≤ seq (get_last p ps)
unfolding IsSorted get_last
first_le_last seq p [] h = omega arith
first_le_last seq p (q ∷ ps) h = let k = first_le_last seq q ps h.1 in let l = h.0.0 in omega arith

insert_ordered_last :
    (seq : ℕ → ℕ) (r p : ℕ) (ps : List ℕ)
    → IsSorted seq (p ∷ ps)
    → seq (get_last p ps) < seq r
    → insert_ordered seq r (p ∷ ps) ≡ (p ∷ ps) ++ (r ∷ [])
unfolding IsSorted get_last insert_ordered
insert_ordered_last seq r p [] h l = rw (not_ltb (seq r) (seq p) (omega arith)) refl
insert_ordered_last seq r p (q ∷ ps) h l =
    let k = first_le_last seq q ps h.1 in
    let m = h.0.0 in
    rw (not_ltb (seq r) (seq p) (omega arith)) (ap (◌∷◌ p) (insert_ordered_last seq r q ps h.1 l))

insert_middle-ordered :
    (seq : ℕ → ℕ) (r p : ℕ) (ps : List ℕ)
    → seq r < seq (get_last p ps)
    → insert_middle seq r (p ∷ ps) ≡ insert_ordered seq r (p ∷ ps)
unfolding get_last insert_ordered insert_middle
insert_middle-ordered seq r p [] h = ground arith
insert_middle-ordered seq r p (q ∷ ps) h = ground (arith, insert_middle-ordered seq r q ps h)

last_ne :
    (seq : ℕ → ℕ) (r p : ℕ) (ps : List ℕ)
    → has_seq seq r (p ∷ ps) ≡ false
    → (seq (get_last p ps) == seq r) ≡ false
unfolding get_last has_seq
last_ne seq r p [] h = ground arith
last_ne seq r p (q ∷ ps) h = last_ne seq r q ps (ground arith)

-- Of a packet whose sequence number is new to sorted packets, the three cases of the insertion give
-- the list that one pass from the front gives.
pub insert_packet-insert_ordered :
    (seq : ℕ → ℕ) (r : ℕ) (ps : List ℕ)
    → IsSorted seq ps
    → has_seq seq r ps ≡ false
    → insert_packet seq r ps ≡ insert_ordered seq r ps
unfolding insert_packet insert_ordered
insert_packet-insert_ordered seq r [] h n = refl
insert_packet-insert_ordered seq r (p ∷ ps) h n =
    elim (Bool-cases (ltb (seq (get_last p ps)) (seq r))) [
      | inl e ↦ rw (e) (sym (insert_ordered_last seq r p ps h (ltb→lt _ _ e)))
      | inr e ↦
          let k = last_ne seq r p ps n in
          let m = insert_middle-ordered seq r p ps (ground arith) in ground (arith, m)
    ]

All-trans :
    (seq : ℕ → ℕ) (a b : ℕ) (ps : List ℕ)
    → a < b
    → All (λ q. b < seq q) ps
    → All (λ q. a < seq q) ps
All-trans seq a b [] l h = tt
All-trans seq a b (p ∷ ps) l h = let k = h.0 in (omega arith, All-trans seq a b ps l h.1)

All-insert_ordered :
    (seq : ℕ → ℕ) (a r : ℕ) (ps : List ℕ)
    → a < seq r
    → All (λ q. a < seq q) ps
    → All (λ q. a < seq q) (insert_ordered seq r ps)
unfolding insert_ordered
All-insert_ordered seq a r [] l h = (l, tt)
All-insert_ordered seq a r (p ∷ ps) l h = elim (Bool-cases (ltb (seq r) (seq p))) [
  | inl e ↦ rw (e) (l, h)
  | inr e ↦ rw (e) (h.0, All-insert_ordered seq a r ps l h.1)
]

pub insert_ordered-IsSorted :
    (seq : ℕ → ℕ) (r : ℕ) (ps : List ℕ)
    → IsSorted seq ps
    → has_seq seq r ps ≡ false
    → IsSorted seq (insert_ordered seq r ps)
unfolding insert_ordered IsSorted has_seq
insert_ordered-IsSorted seq r [] h n = (tt, tt)
insert_ordered-IsSorted seq r (p ∷ ps) h n = elim (Bool-cases (ltb (seq r) (seq p))) [
  | inl e ↦ let l = ltb→lt _ _ e in rw (e) ((l, All-trans seq (seq r) (seq p) ps l h.0), h)
  | inr e ↦
      let l : seq p < seq r = ground arith in
      rw (e) (
        All-insert_ordered seq (seq p) r ps l h.0,
        insert_ordered-IsSorted seq r ps h.1 (ground arith),
      )
]

-- the bytes of the payloads
unfoldable pub total_payload : (ℕ → Packet) → List ℕ → ℕ
total_payload packet [] = 0
total_payload packet (r ∷ rs) = length (packet r).payload + total_payload packet rs

-- the bytes that the packets lost
unfoldable pub total_lost : (ℕ → Packet) → List ℕ → ℕ
total_lost packet [] = 0
total_lost packet (r ∷ rs) = (packet r).lost + total_lost packet rs

-- What holds of a message: its packets are sorted, and its counts are the sums over its packets.
pub record IsMessage (s : Store) (i : ℕ) : Type 0 where
  pub sorted : IsSorted (seq_of s) (s.message i).packets
  pub size_total : (s.message i).size ≡ total_payload s.packet (s.message i).packets
  pub lost_total : (s.message i).lost_data ≡ total_lost s.packet (s.message i).packets

total_payload-insert_ordered :
    (packet : ℕ → Packet) (seq : ℕ → ℕ) (r : ℕ) (ps : List ℕ)
    → total_payload packet (insert_ordered seq r ps)
      ≡ total_payload packet ps + length (packet r).payload
unfolding insert_ordered total_payload
total_payload-insert_ordered packet seq r [] = omega arith
total_payload-insert_ordered packet seq r (p ∷ ps) =
    ground (arith, total_payload-insert_ordered packet seq r ps)

total_lost-insert_ordered :
    (packet : ℕ → Packet) (seq : ℕ → ℕ) (r : ℕ) (ps : List ℕ)
    → total_lost packet (insert_ordered seq r ps) ≡ total_lost packet ps + (packet r).lost
unfolding insert_ordered total_lost
total_lost-insert_ordered packet seq r [] = omega arith
total_lost-insert_ordered packet seq r (p ∷ ps) =
    ground (arith, total_lost-insert_ordered packet seq r ps)

pub IsMessage-of :
    (t : Store) (i : ℕ) (m : Message)
    → t.message i ≡ m
    → IsSorted (seq_of t) m.packets
    → m.size ≡ total_payload t.packet m.packets
    → m.lost_data ≡ total_lost t.packet m.packets
    → IsMessage t i
IsMessage-of t i m e a b c = record { sorted = rw e a; size_total = rw e b; lost_total = rw e c }

pub update_same : {A : Type 0} (f : ℕ → A) (i : ℕ) (a : A) → update f i a i ≡ a
update_same f i a = ground arith

-- Adding to a message a packet of a new sequence number, or one that it has already, keeps its
-- packets sorted by sequence number and its counts the sums over its packets.
pub add-IsMessage : (s : Store) (i r : ℕ) → IsMessage s i → IsMessage (add s i r).0 i
unfolding add
add-IsMessage s i r h = elim (Bool-cases (has_seq (seq_of s) r (s.message i).packets)) [
  | inl e ↦ rw (e, add) h
  | inr e ↦
      let ps = (s.message i).packets in
      let o = insert_packet-insert_ordered (seq_of s) r ps h.sorted e in
      rw (e, add)
        (IsMessage-of _ i _ (update_same s.message i _)
          (rw o (insert_ordered-IsSorted (seq_of s) r ps h.sorted e))
          (rw o
            (omega (arith, h.size_total, total_payload-insert_ordered s.packet (seq_of s) r ps)))
          (rw o (omega (arith, h.lost_total, total_lost-insert_ordered s.packet (seq_of s) r ps))))
]
