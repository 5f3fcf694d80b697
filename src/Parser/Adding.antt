-- ===== src/Parser/Adding.antt =====
-- tcp/tcp_message.go: adding a packet to a message keeps the store sound, with hints or without.
use traffic.Base.Encoding.{All}
use traffic.Base.Outcome.{Outcome, ok, IfOk, IfOk-bind, IfOk-bind_of, IfOk-if, IfOk-option}
use traffic.Base.{
  ℕ, zero, suc, ◌+◌, ◌%◌, ◌^◌, ◌<◌, Bool, false, not, List, [], ◌∷◌, none, some, ◌≡◌, refl, inl,
  inr, arith, ◌==◌, ltb, Bool-cases,
}
use traffic.Http.State.{has_full_payload}
use traffic.Packet.{Packet, HdrError, message_id, ip2int}
use traffic.Message.Order.{IsSorted, add-IsMessage, insert_ordered}
use traffic.Message.View.{add-packet, add-arrive, arrive, arrive-insert_ordered}
use traffic.Message.{Store, set_packet, has_seq, seq_of, add, missing_chunk, packet_data, continues}
use traffic.Parser.Sound.{
  IsSame, IsSame-refl, IsSound, IsSound-set_packet, IsSound-rest, IsSound-message,
  IsSound-set_message,
}
use traffic.Parser.{
  Config, lookup, delete, http1_end_hint, first_id, emit, shift_acks, add_all, fix100_continue,
  add_packet, state_of,
}

pub not_eq : (q r : ℕ) → q < r → (q == r) ≡ false
not_eq q r l = ground arith

pub message_id-IsSame : (p : Packet) → IfOk {E = HdrError} (λ x. IsSame p x.0) (message_id p)
unfolding message_id
message_id-IsSame p =
    IfOk-if (λ x. IsSame p x.0) (p.message_id == 0) _ _
      (λ e.
        IfOk-bind (λ x. IsSame p x.0) (ip2int p.src_ip) _
          λ s.
            IfOk-bind (λ x. IsSame p x.0) (ip2int p.dst_ip) _
              λ d. record { seq = refl; payload = refl; lost = refl })
      (λ e. IsSame-refl p)

add-used : (s : Store) (i r : ℕ) → (add s i r).0.packets_used ≡ s.packets_used
unfolding add
add-used s i r = elim (Bool-cases (has_seq (seq_of s) r (s.message i).packets)) [
  | inl e ↦ rw (e, add) refl
  | inr e ↦ rw (e, add) refl
]

add-others : (s : Store) (i r j : ℕ) → (j == i) ≡ false → (add s i r).0.message j ≡ s.message j
unfolding add
add-others s i r j h = elim (Bool-cases (has_seq (seq_of s) r (s.message i).packets)) [
  | inl e ↦ rw (e, add) refl
  | inr e ↦ rw (e, add, h) refl
]

insert_ordered-All :
    (P : ℕ → Type 0) (seq : ℕ → ℕ) (r : ℕ) (ps : List ℕ)
    → P r
    → All P ps
    → All P (insert_ordered seq r ps)
unfolding insert_ordered
insert_ordered-All P seq r [] l h = (l, tt)
insert_ordered-All P seq r (p ∷ ps) l h = elim (Bool-cases (ltb (seq r) (seq p))) [
  | inl e ↦ rw (e) (l, h)
  | inr e ↦ rw (e) (h.0, insert_ordered-All P seq r ps l h.1)
]

arrive-All :
    (P : ℕ → Type 0) (seq : ℕ → ℕ) (r : ℕ) (ps : List ℕ)
    → IsSorted seq ps
    → P r
    → All P ps
    → All P (arrive seq r ps)
arrive-All P seq r ps k l h = elim (Bool-cases (has_seq seq r ps)) [
  | inl e ↦ rw (arrive-insert_ordered seq r ps k, e) h
  | inr e ↦ rw (arrive-insert_ordered seq r ps k, e) (insert_ordered-All P seq r ps l h)
]

add-IsSound : (n : ℕ) (s : Store) (i r : ℕ) → IsSound n s → r < n → IsSound n (add s i r).0
add-IsSound n s i r h l =
    let k = h.well_formed i in
    IsSound-message n s (add s i r).0 i h (add-used s i r) (add-packet s i r) (add-others s i r)
      (add-IsMessage s i r k)
      (rw (add-arrive s i r)
        (arrive-All (λ q. q < n) (seq_of s) r (s.message i).packets k.sorted l (h.allocated i)))

pub first_id-IsSound :
    (n : ℕ) (s : Store) (ps : List ℕ)
    → IsSound n s
    → IfOk {E = HdrError} (λ x. IsSound n x.0) (first_id s ps)
unfolding first_id
first_id-IsSound n s [] h = tt
first_id-IsSound n s (r ∷ rs) h =
    IfOk-bind_of (λ x. IsSame (s.packet r) x.0) (λ x. IsSound n x.0) (message_id (s.packet r)) _
      (message_id-IsSame (s.packet r)) (λ x k. IsSound-set_packet n s r x.0 h k)

pub emit-IsSound :
    (n : ℕ) (s : Store) (i : ℕ) → IsSound n s → IfOk {E = HdrError} (IsSound n) (emit s i)
unfolding emit
emit-IsSound n s i h =
    IfOk-bind_of (λ x. IsSound n x.0) (IsSound n) (first_id s (s.message i).packets) _
      (first_id-IsSound n s (s.message i).packets h) (λ x k. IsSound-rest n x.0 _ k refl refl refl)

shift_acks-IsSound : (n : ℕ) (ps : List ℕ) (s : Store) → IsSound n s → IsSound n (shift_acks s ps)
unfolding shift_acks
shift_acks-IsSound n [] s h = h
shift_acks-IsSound n (r ∷ rs) s h =
    let p = s.packet r in
    let q : Packet = record p { message_id = 0; ack = (p.ack + 25) % 2 ^ 32 } in
    shift_acks-IsSound n rs (set_packet s r q)
      (IsSound-set_packet n s r q h (record { seq = refl; payload = refl; lost = refl }))

-- what the calls of `addPacket` on packets of the store keep
abbrev pub Keeps : (Store → ℕ → ℕ → Outcome HdrError (Store × Bool)) → Type 0
Keeps add_one =
    (n : ℕ) (s : Store) (i r : ℕ) → IsSound n s → r < n → IfOk (λ x. IsSound n x.0) (add_one s i r)

module _ (add_one : Store → ℕ → ℕ → Outcome HdrError (Store × Bool)) (keeps : Keeps add_one) where
  add_all-IsSound :
      (n : ℕ) (s : Store) (i : ℕ) (ps : List ℕ)
      → IsSound n s
      → All (λ r. r < n) ps
      → IfOk (IsSound n) (add_all add_one s i ps)
  unfolding add_all
  add_all-IsSound n s i [] h a = h
  add_all-IsSound n s i (r ∷ rs) h a =
      IfOk-bind_of (λ x. IsSound n x.0) (IsSound n) (add_one s i r) _ (keeps n s i r h a.0)
        (λ x k. add_all-IsSound n x.0 i rs k a.1)

  fix100_continue-IsSound :
      (n : ℕ) (s : Store) (i : ℕ) → IsSound n s → IfOk (IsSound n) (fix100_continue add_one s i)
  unfolding fix100_continue
  fix100_continue-IsSound n s i h =
      let Q = λ (x : Store × ℕ). IsSound n x.0 in
      IfOk-if (IsSound n) (not (continues (s.message i).feedback)) _ _ (λ e. h)
        λ e.
          IfOk-bind_of Q (IsSound n) (first_id s (s.message i).packets) _
            (first_id-IsSound n s (s.message i).packets h)
            λ x k.
              let b : Store = record x.0 { table = delete x.1 x.0.table } in
              let c = shift_acks b (s.message i).packets in
              IfOk-bind_of Q (IsSound n) (first_id c (c.message i).packets) _
                (first_id-IsSound n c (c.message i).packets (
                  shift_acks-IsSound n (s.message i).packets b
                    (IsSound-rest n x.0 b k refl refl refl)))
                λ y l.
                  IfOk-bind_of (IsSound n) (IsSound n)
                    (elim (lookup y.1 y.0.table) [
                      | none ↦ ok y.0
                      | some next ↦ add_all add_one y.0 i (y.0.message next).packets
                    ])
                    _
                    (IfOk-option (IsSound n) (lookup y.1 y.0.table) _ _ l (λ next.
                      add_all-IsSound n y.0 i (y.0.message next).packets l (l.allocated next)))
                    λ d m.
                      IfOk-bind_of Q (IsSound n) (first_id d (d.message i).packets) _
                        (first_id-IsSound n d (d.message i).packets m)
                        λ z o. IsSound-rest n z.0 _ o refl refl refl

http1_end_hint-IsSound :
    (n : ℕ) (s : Store) (i : ℕ)
    → IsSound n s
    → IfOk {E = HdrError} (λ x. IsSound n x.0) (http1_end_hint s i)
unfolding http1_end_hint
http1_end_hint-IsSound n s i h =
    let Q = λ (x : Store × Bool). IsSound n x.0 in
    IfOk-bind Q (missing_chunk s (s.message i).packets) _ λ missing.
      IfOk-if Q missing _ _ (λ e. h)
        λ e.
          IfOk-bind Q
            (has_full_payload (state_of (s.message i).feedback)
              (packet_data s (s.message i).packets))
            _ λ x. IsSound-set_message n s i _ h refl refl refl

pub add_packet-IsSound : (fuel : ℕ) (cfg : Config) → Keeps (add_packet fuel cfg)
unfolding add_packet
add_packet-IsSound zero cfg n s i r h l = tt
add_packet-IsSound (suc fuel) cfg n s i r h l =
    let Q = λ (x : Store × Bool). IsSound n x.0 in
    let k = add-IsSound n s i r h l in
    IfOk-if Q (not (add s i r).1) _ _ (λ e. k)
      λ e.
        IfOk-if Q (not cfg.http) _ _ (λ e. k)
          λ e.
            IfOk-bind_of Q Q (http1_end_hint (add s i r).0 i) _
              (http1_end_hint-IsSound n (add s i r).0 i k)
              λ x m.
                IfOk-if Q x.1 _ _
                  (λ e. IfOk-bind_of (IsSound n) Q (emit x.0 i) _ (emit-IsSound n x.0 i m) λ v o. o)
                  (λ e.
                    IfOk-bind_of (IsSound n) Q (fix100_continue (add_packet fuel cfg) x.0 i) _
                      (fix100_continue-IsSound (add_packet fuel cfg) (add_packet-IsSound fuel cfg) n
                        x.0 i m)
                      λ v o. o)
