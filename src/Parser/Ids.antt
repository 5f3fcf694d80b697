-- ===== src/Parser/Ids.antt =====
-- tcp/tcp_message.go: the ids of packets, and of messages by their first packets.
use Prim.Native.Nat.{bit_or}
use traffic.Base.Outcome.{Outcome, ◌>>=◌, IfOk-known, ok, IfOk, IfOk-bind_of}
use traffic.Base.Encoding.{All}
use mathlib.Core.Path.{subst}
use traffic.Base.{
  ℕ, ◌+◌, ◌*◌, ◌%◌, ◌^◌, ◌<◌, List, [], ◌∷◌, ◌++◌, some, ◌≡◌, refl, sym, ap, ◌∙◌, inl, inr, ltb,
  ◌==◌, Bool-cases,
}
use traffic.Message.{Store, insert_packet, insert_middle, get_last}
use traffic.Packet.{Packet, HdrError, message_id, ip2int}
use traffic.Parser.Late.{HasId, IsKeyed}
use traffic.Parser.{lookup}

abbrev id_of : Packet → ℕ → ℕ → ℕ
id_of p s d =
    bit_or (bit_or (p.src_port * 2 ^ 48 % 2 ^ 64) (p.dst_port * 2 ^ 32)) ((s + d + p.ack) % 2 ^ 64)

computed_id : Packet → Outcome HdrError (Packet × ℕ)
computed_id p = do
  s ← ip2int p.src_ip
  d ← ip2int p.dst_ip
  let id = id_of p s d
  ok (record p { message_id = id }, id)

computed_again :
    (p : Packet) (a b id : ℕ)
    → ip2int {E = HdrError} p.src_ip ≡ ok a
    → ip2int {E = HdrError} p.dst_ip ≡ ok b
    → id ≡ id_of p a b
    → message_id {E = HdrError} (record p { message_id = id })
      ≡ ok (record p { message_id = id }, id)
unfolding message_id
computed_again p a b id ea eb e = elim (Bool-cases (id == 0)) [
  | inl y ↦ rw (y, ea, eb) (ap (λ n. ok (record p { message_id = n }, n)) (sym e))
  | inr y ↦ rw y refl
]

-- The id that was computed for a packet is the one that it keeps.
pub message_id-again :
    (p : Packet) → IfOk {E = HdrError} (λ x. message_id {E = HdrError} x.0 ≡ ok x) (message_id p)
unfolding message_id computed_id
message_id-again p = elim (Bool-cases (p.message_id == 0)) [
  | inr z ↦
      let e : message_id {E = HdrError} p ≡ ok (p, p.message_id) = rw (z, message_id) refl in rw e e
  | inl z ↦
      let m : message_id {E = HdrError} p ≡ computed_id p = rw (z, message_id, computed_id) refl in
      rw m (
        IfOk-bind_of (λ a. ip2int {E = HdrError} p.src_ip ≡ ok a) _ (ip2int p.src_ip) _
          (IfOk-known (ip2int p.src_ip))
          λ a ea.
            IfOk-bind_of (λ b. ip2int {E = HdrError} p.dst_ip ≡ ok b) _ (ip2int p.dst_ip) _
              (IfOk-known (ip2int p.dst_ip)) λ b eb. computed_again p a b _ ea eb refl)
]

pub HasId-insert :
    (f : ℕ → Packet) (seq : ℕ → ℕ) (r k : ℕ) (ps : List ℕ)
    → message_id {E = HdrError} (f r) ≡ ok (f r, k)
    → HasId f ps k
    → HasId f (insert_packet seq r ps) k
unfolding insert_packet insert_middle
HasId-insert f seq r k [] h w = record { first = r; others = []; is_cons = refl; has_id = h }
HasId-insert f seq r k (p ∷ ps) h w = elim (Bool-cases (ltb (seq (get_last p ps)) (seq r))) [
  | inl a ↦ rw a (record { first = p; others = ps ++ (r ∷ []); is_cons = refl; has_id = old })
  | inr a ↦ elim (Bool-cases (ltb (seq r) (seq p))) [
    | inl b ↦ rw (a, b) (record { first = r; others = p ∷ ps; is_cons = refl; has_id = h })
    | inr b ↦ rw (a, b) (record { first = p; others = _; is_cons = refl; has_id = old })
  ]
]
  where
    old : message_id {E = HdrError} (f p) ≡ ok (f p, k)
    old =
        let e : w.first ≡ p = cc (w.is_cons) in
        ap (λ j. message_id (f j)) (sym e) ∙ w.has_id ∙ ap (λ j. ok (f j, k)) e

pub some_same : {A : Type 0} {a b : A} → some a ≡ some b → a ≡ b
some_same h = cc

-- The map refers to messages of the store, each under the id of its first packet.
pub record IsIndexed (s : Store) : Type 0 where
  pub keyed : IsKeyed s
  pub within : (k i : ℕ) → lookup k s.table ≡ some i → i < s.messages_used

-- A message is under one key alone.
pub one_key :
    (s : Store) (i k l : ℕ)
    → IsKeyed s
    → lookup k s.table ≡ some i
    → lookup l s.table ≡ some i
    → k ≡ l
one_key s i k l h e d =
    let w = h k i e in
    let v = h l i d in
    let same : w.first ≡ v.first = cc (w.is_cons, v.is_cons) in
    same_id (s.packet w.first) k l w.has_id
      (ap (λ j. message_id (s.packet j)) same ∙ v.has_id ∙ ap (λ j. ok (s.packet j, l)) (sym same))
  where
    same_id :
        (p : Packet) (m n : ℕ)
        → message_id {E = HdrError} p ≡ ok (p, m)
        → message_id {E = HdrError} p ≡ ok (p, n)
        → m ≡ n
    same_id p m n a b = cc (a, b)

-- a packet that no message has may change
pub IsKeyed-fresh :
    (s t : Store) (r : ℕ)
    → ((i : ℕ) → All (λ q. q < r) (s.message i).packets)
    → t.table ≡ s.table
    → t.message ≡ s.message
    → ((q : ℕ) → q < r → t.packet q ≡ s.packet q)
    → IsKeyed s
    → IsKeyed t
IsKeyed-fresh s t r a table messages packets h k i e =
    let w = h k i (ap (λ m. lookup k m) (sym table) ∙ e) in
    let l : w.first < r = (subst (All (λ q. q < r)) w.is_cons (a i)).0 in
    let same = packets w.first l in
    record {
      first = w.first;
      others = w.others;
      is_cons = ap (λ f. (f i).packets) messages ∙ w.is_cons;
      has_id = ap message_id same ∙ w.has_id ∙ ap (λ p. ok (p, k)) (sym same);
    }
