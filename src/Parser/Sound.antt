-- ===== src/Parser/Sound.antt =====
-- tcp/tcp_message.go: what every message of a store keeps, and the changes of a store that keep it.
use traffic.Base.Encoding.{All}
use mathlib.Core.Path.{subst}
use traffic.Base.{
  ℕ, ◌≤◌, ◌<◌, false, List, [], ◌∷◌, ◌≡◌, refl, sym, ap, ◌∙◌, inl, inr, arith, ◌==◌, Bool-cases,
  ==_iff,
}
use traffic.Packet.{Packet}
use traffic.Message.Order.{
  IsSorted, IsMessage, IsMessage-of, total_payload, total_lost, update_same,
}
use traffic.Message.{Store, Message, set_packet, set_message, update}

-- A packet that holds the same bytes at the same place of the stream.
pub record IsSame (p q : Packet) : Type 0 where
  pub seq : q.seq ≡ p.seq
  pub payload : q.payload ≡ p.payload
  pub lost : q.lost ≡ p.lost

pub IsSame-refl : (p : Packet) → IsSame p p
IsSame-refl p = record { seq = refl; payload = refl; lost = refl }

-- What holds of a store with n packets: each of its messages is well-formed, and refers to these
-- packets alone.
pub record IsSound (n : ℕ) (s : Store) : Type 0 where
  pub used : s.packets_used ≡ n
  pub well_formed : (i : ℕ) → IsMessage s i
  pub allocated : (i : ℕ) → All (λ r. r < n) (s.message i).packets

module _ (n : ℕ) (f g : ℕ → Packet) (h : (r : ℕ) → r < n → IsSame (f r) (g r)) where
  All-same :
      (r : ℕ) (ps : List ℕ)
      → r < n
      → All (λ q. q < n) ps
      → All (λ q. (f r).seq < (f q).seq) ps
      → All (λ q. (g r).seq < (g q).seq) ps
  All-same r [] l a k = tt
  All-same r (p ∷ ps) l a k =
      let x = (h r l).seq in
      let y = (h p a.0).seq in let z = k.0 in (omega arith, All-same r ps l a.1 k.1)

  IsSorted-same :
      (ps : List ℕ)
      → All (λ r. r < n) ps
      → IsSorted (λ r. (f r).seq) ps
      → IsSorted (λ r. (g r).seq) ps
  unfolding IsSorted
  IsSorted-same [] a k = tt
  IsSorted-same (p ∷ ps) a k = (All-same p ps a.0 a.1 k.0, IsSorted-same ps a.1 k.1)

  total_payload-same : (ps : List ℕ) → All (λ r. r < n) ps → total_payload f ps ≡ total_payload g ps
  unfolding total_payload
  total_payload-same [] a = refl
  total_payload-same (p ∷ ps) a = rw ((h p a.0).payload, total_payload-same ps a.1) refl

  total_lost-same : (ps : List ℕ) → All (λ r. r < n) ps → total_lost f ps ≡ total_lost g ps
  unfolding total_lost
  total_lost-same [] a = refl
  total_lost-same (p ∷ ps) a = rw ((h p a.0).lost, total_lost-same ps a.1) refl

  -- A message of packets that are the same in another store.
  pub IsMessage-same :
      (s t : Store) (i j : ℕ)
      → s.packet ≡ f
      → t.packet ≡ g
      → t.message j ≡ s.message i
      → All (λ r. r < n) (s.message i).packets
      → IsMessage s i
      → IsMessage t j
  IsMessage-same s t i j e d m a k =
      let ps = (s.message i).packets in
      IsMessage-of t j (s.message i) m
        (subst (λ w. IsSorted (λ r. (w r).seq) ps) (sym d)
          (IsSorted-same ps a (subst (λ w. IsSorted (λ r. (w r).seq) ps) e k.sorted)))
        (k.size_total ∙ rw (e, d) (total_payload-same ps a))
        (k.lost_total ∙ rw (e, d) (total_lost-same ps a))

All-weaken : (n m : ℕ) (ps : List ℕ) → n ≤ m → All (λ r. r < n) ps → All (λ r. r < m) ps
All-weaken n m [] l h = tt
All-weaken n m (p ∷ ps) l h = let k = h.0 in (omega arith, All-weaken n m ps l h.1)

-- Packets beyond those of the store are free, the others may change what no message depends on.
pub IsSound-packets :
    (n m : ℕ) (s t : Store)
    → IsSound n s
    → n ≤ m
    → t.packets_used ≡ m
    → t.message ≡ s.message
    → ((r : ℕ) → r < n → IsSame (s.packet r) (t.packet r))
    → IsSound m t
IsSound-packets n m s t h l used e same = record {
  used = used;
  well_formed = λ i.
      IsMessage-same n s.packet t.packet same s t i i refl refl (ap (λ w. w i) e) (h.allocated i)
        (h.well_formed i);
  allocated = λ i.
      subst (λ w. All (λ r. r < m) (w i).packets) (sym e)
        (All-weaken n m (s.message i).packets l (h.allocated i));
}

pub IsSame-update :
    (f : ℕ → Packet) (r : ℕ) (p : Packet) → IsSame (f r) p → (q : ℕ) → IsSame (f q) (update f r p q)
IsSame-update f r p h q = elim (Bool-cases (q == r)) [
  | inl e ↦ rw e (subst (λ j. IsSame (f j) p) (sym ((==_iff q r).0 e)) h)
  | inr e ↦ rw e (IsSame-refl (f q))
]

pub IsSound-set_packet :
    (n : ℕ) (s : Store) (r : ℕ) (p : Packet)
    → IsSound n s
    → IsSame (s.packet r) p
    → IsSound n (set_packet s r p)
IsSound-set_packet n s r p h k =
    IsSound-packets n n s (set_packet s r p) h (omega arith) h.used refl
      (λ q l. IsSame-update s.packet r p k q)

-- the map and what was emitted are free
pub IsSound-rest :
    (n : ℕ) (s t : Store)
    → IsSound n s
    → t.packets_used ≡ s.packets_used
    → t.message ≡ s.message
    → t.packet ≡ s.packet
    → IsSound n t
IsSound-rest n s t h used e d =
    IsSound-packets n n s t h (omega arith) (used ∙ h.used) e
      (λ r l. subst (λ f. IsSame (s.packet r) (f r)) (sym d) (IsSame-refl (s.packet r)))

-- A store in which one message was replaced by a well-formed one.
pub IsSound-message :
    (n : ℕ) (s t : Store) (i : ℕ)
    → IsSound n s
    → t.packets_used ≡ s.packets_used
    → t.packet ≡ s.packet
    → ((j : ℕ) → (j == i) ≡ false → t.message j ≡ s.message j)
    → IsMessage t i
    → All (λ r. r < n) (t.message i).packets
    → IsSound n t
IsSound-message n s t i h used d others k a = record {
  used = used ∙ h.used;
  well_formed = λ j. elim (Bool-cases (j == i)) [
    | inl e ↦ subst (IsMessage t) (sym ((==_iff j i).0 e)) k
    | inr e ↦
        IsMessage-same n s.packet s.packet (λ r l. IsSame-refl (s.packet r)) s t j j refl d
          (others j e) (h.allocated j) (h.well_formed j)
  ];
  allocated = λ j. elim (Bool-cases (j == i)) [
    | inl e ↦ subst (λ w. All (λ r. r < n) (t.message w).packets) (sym ((==_iff j i).0 e)) a
    | inr e ↦ subst (λ w. All (λ r. r < n) w.packets) (sym (others j e)) (h.allocated j)
  ];
}

pub IsSound-set_message :
    (n : ℕ) (s : Store) (i : ℕ) (m : Message)
    → IsSound n s
    → m.packets ≡ (s.message i).packets
    → m.size ≡ (s.message i).size
    → m.lost_data ≡ (s.message i).lost_data
    → IsSound n (set_message s i m)
IsSound-set_message n s i m h packets size lost =
    let k = h.well_formed i in
    let e = update_same s.message i m in
    IsSound-message n s (set_message s i m) i h refl refl (λ j x. rw x refl)
      (IsMessage-of (set_message s i m) i m e (rw packets k.sorted) (size ∙ rw packets k.size_total)
        (lost ∙ rw packets k.lost_total))
      (rw (e, packets) (h.allocated i))
