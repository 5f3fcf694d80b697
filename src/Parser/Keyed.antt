-- ===== src/Parser/Keyed.antt =====
-- tcp/tcp_message.go: the map of a parser without hints has each message under the id of its packets.
use traffic.Base.Outcome.{ok, IfOk, IfOk-bind_of}
use mathlib.Core.Path.{subst}
use traffic.Base.{
  ℕ, ◌⊎◌, zero, suc, ◌+◌, ◌<◌, true, false, ◌&&◌, List, [], ◌∷◌, none, some, ◌≡◌, ◌≢◌, refl, sym,
  ap, ◌∙◌, inl, inr, arith, ◌==◌, Bool-cases, ==_iff,
}
use traffic.Message.{
  Store, Table, Message, set_packet, set_message, update, is_unknown, has_seq, seq_of,
  insert_packet, add,
}
use traffic.Packet.{Packet, HdrError, message_id}
use traffic.Parser.Emission.{lookup-store, update_same}
use traffic.Parser.Processing.{add_packet-plain}
use traffic.Parser.Late.{HasId, HasId-same, update_self}
use traffic.Parser.{Config, lookup, store, add_packet, resume, begin}
use traffic.Parser.Ids.{HasId-insert, some_same, IsIndexed, one_key}

-- What adding a packet of the id k does to the store.
record IsAdded (s : Store) (i r k : ℕ) (t : Store) : Type 0 where
  packet : t.packet ≡ s.packet
  table : t.table ≡ s.table
  used : t.messages_used ≡ s.messages_used
  others : (j : ℕ) → j ≢ i → (t.message j).packets ≡ (s.message j).packets
  here : HasId s.packet (t.message i).packets k

pub update_other :
    {A : Type 0} (f : ℕ → A) (i j : ℕ) (a : A) → (j == i) ≡ false → update f i a j ≡ f j
update_other f i j a h = rw h refl

no_seq : (seq : ℕ → ℕ) (r : ℕ) (ps : List ℕ) → ps ≡ [] → has_seq seq r ps ≡ true → ⊥
unfolding has_seq
no_seq seq r [] z d = cc
no_seq seq r (p ∷ ps) z d = cc

HasId-inserted :
    (f : ℕ → Packet) (seq : ℕ → ℕ) (r k : ℕ) (ps : List ℕ)
    → message_id {E = HdrError} (f r) ≡ ok (f r, k)
    → (ps ≡ []) ⊎ HasId f ps k
    → HasId f (insert_packet seq r ps) k
unfolding insert_packet
HasId-inserted f seq r k [] e h = record { first = r; others = []; is_cons = refl; has_id = e }
HasId-inserted f seq r k (p ∷ ps) e (inl z) = absurd (cc (z))
HasId-inserted f seq r k (p ∷ ps) e (inr w) = HasId-insert f seq r k (p ∷ ps) e w

add-IsAdded :
    (s : Store) (i r k : ℕ)
    → message_id {E = HdrError} (s.packet r) ≡ ok (s.packet r, k)
    → ((s.message i).packets ≡ []) ⊎ HasId s.packet (s.message i).packets k
    → IsAdded s i r k (add s i r).0
unfolding add
add-IsAdded s i r k e h = elim (Bool-cases (has_seq (seq_of s) r (s.message i).packets)) [
  | inl d ↦ rw d (record {
    packet = refl;
    table = refl;
    used = refl;
    others = λ j n. refl;
    here = elim h [ inl z ↦ absurd (no_seq (seq_of s) r (s.message i).packets z d) | inr w ↦ w ];
  })
  | inr d ↦ rw d (record {
    packet = refl;
    table = refl;
    used = refl;
    others = λ j n.
        let ne : (j == i) ≡ false = ground arith in
        ap (λ m. m.packets) (update_other s.message i j _ ne);
    here =
        subst (λ ps. HasId s.packet ps k) (sym (ap (λ m. m.packets) (update_same s.message i _)))
          (HasId-inserted s.packet (seq_of s) r k (s.message i).packets e h);
  })
]

add_packet-IsAdded :
    (fuel : ℕ) (cfg : Config) (s : Store) (i r k : ℕ)
    → cfg.http ≡ false
    → message_id {E = HdrError} (s.packet r) ≡ ok (s.packet r, k)
    → ((s.message i).packets ≡ []) ⊎ HasId s.packet (s.message i).packets k
    → IfOk {E = HdrError} (λ x. IsAdded s i r k x.0) (add_packet fuel cfg s i r)
unfolding add_packet
add_packet-IsAdded zero cfg s i r k h e w = tt
add_packet-IsAdded (suc fuel) cfg s i r k h e w =
    subst (IfOk (λ x. IsAdded s i r k x.0)) (sym (add_packet-plain fuel cfg s i r h))
      (add-IsAdded s i r k e w)

-- A message that was added to under a key: it is there, and the other keys are as before.
added-IsIndexed :
    (s t : Store) (i r k : ℕ)
    → IsAdded s i r k t
    → ((l j : ℕ)
        → l ≢ k
        → lookup l s.table ≡ some j
        → (j ≢ i) × HasId s.packet (s.message j).packets l)
    → lookup k s.table ≡ some i
    → ((l j : ℕ) → lookup l s.table ≡ some j → j < s.messages_used)
    → IsIndexed t
added-IsIndexed s t i r k a others here within = record {
  keyed = λ l j e.
      let found : lookup l s.table ≡ some j = ap (lookup l) (sym a.table) ∙ e in
      elim (Bool-cases (l == k)) [
        | inl d ↦
            let same : l ≡ k = (==_iff l k).0 d in
            let same_message : i ≡ j =
              some_same (sym here ∙ ap (λ m. lookup m s.table) (sym same) ∙ found) in
            subst (λ m. HasId t.packet (t.message j).packets m) (sym same)
              (subst (λ m. HasId t.packet (t.message m).packets k) same_message
                (subst (λ f. HasId f (t.message i).packets k) (sym a.packet) a.here))
        | inr d ↦
            let (ne, w) = others l j (ground arith) found in
            subst (λ f. HasId f (t.message j).packets l) (sym a.packet)
              (subst (λ ps. HasId s.packet ps l) (sym (a.others j ne)) w)
      ];
  within = λ l j e.
      let used = a.used in let w = within l j (ap (lookup l) (sym a.table) ∙ e) in omega arith;
}

pub resume-IsIndexed :
    (fuel : ℕ) (cfg : Config) (s : Store) (i r k : ℕ)
    → cfg.http ≡ false
    → IsIndexed s
    → lookup k s.table ≡ some i
    → message_id {E = HdrError} (s.packet r) ≡ ok (s.packet r, k)
    → IfOk {E = HdrError} IsIndexed (resume fuel cfg s i r)
unfolding resume
resume-IsIndexed fuel cfg s i r k h x e m = elim (Bool-cases (is_unknown (s.message i).direction)) [
  | inl u ↦ rw (u, h) tt
  | inr u ↦ rw u (
      IfOk-bind_of (λ y. IsAdded s i r k y.0) IsIndexed (add_packet fuel cfg s i r) _
        (add_packet-IsAdded fuel cfg s i r k h m (inr (x.keyed k i e)))
        λ y a.
          added-IsIndexed s y.0 i r k a
            (λ l j n f. (λ same. n (one_key s i l k x.keyed (f ∙ ap some same) e), x.keyed l j f)) e
            x.within)
]

stored_other :
    (k l v j : ℕ) (t : Table) → l ≢ k → lookup l (store k v t) ≡ some j → lookup l t ≡ some j
stored_other k l v j t n f =
    let ne : (k == l) ≡ false = ground arith in sym (lookup-store k l v t ∙ rw ne refl) ∙ f

-- A new message is under no other key.
pub begin-IsIndexed :
    (fuel : ℕ) (cfg : Config) (s : Store) (id r : ℕ)
    → cfg.http ≡ false
    → IsIndexed s
    → message_id {E = HdrError} (s.packet r) ≡ ok (s.packet r, id)
    → IfOk {E = HdrError} IsIndexed (begin fuel cfg s id r)
unfolding begin
begin-IsIndexed fuel cfg s id r h x m =
    let p = s.packet r in
    let z : (is_unknown p.direction && cfg.http) ≡ false = ground arith in
    let i = s.messages_used in
    let empty : Message = record {
      packets = [];
      feedback = none;
      lost_data = 0;
      size = 0;
      start = p.timestamp;
      end_at = 0;
      src_addr = p.src_ip;
      dst_addr = p.dst_ip;
      direction = p.direction;
      timed_out = false;
      truncated = false;
      ip_version = 0;
    } in
    let t = set_message (set_packet s r p) i empty in
    let u : Store = record t { messages_used = i + 1; table = store id i t.table } in
    rw z (
      IfOk-bind_of (λ y. IsAdded u i r id y.0) IsIndexed (add_packet fuel cfg u i r) _
        (add_packet-IsAdded fuel cfg u i r id h
          (ap message_id (update_self s.packet r r)
            ∙ m
            ∙ ap (λ q. ok (q, id)) (sym (update_self s.packet r r)))
          (inl (ap (λ n. n.packets) (update_same s.message i empty))))
        λ y a.
          added-IsIndexed u y.0 i r id a
            (λ l j n f.
              let old : lookup l s.table ≡ some j = stored_other id l i j s.table n f in
              let b = x.within l j old in
              let ne : (j == i) ≡ false = ground arith in
              (
                λ e. absurd (omega arith),
                HasId-same s.packet u.packet (s.message j).packets (u.message j).packets l
                    (update_self s.packet r)
                    (ap (λ n'. n'.packets) (update_other s.message i j empty ne)) (x.keyed l j old),
              ))
            (lookup-store id id i s.table ∙ ground arith)
            (λ l j f. elim (Bool-cases (id == l)) [
              | inl d ↦
                  let e : i ≡ j = some_same (sym (lookup-store id l i s.table ∙ rw d refl) ∙ f) in
                  omega arith
              | inr d ↦
                  let w = x.within l j (stored_other id l i j s.table (ground arith) f) in
                  omega arith
            ]))
