-- ===== src/Parser/Emission.antt =====
-- tcp/tcp_message.go: what becomes of a message that waits for too long.
use traffic.Base.Outcome.{ok, Returns}
use traffic.Base.{
  ℕ, suc, ◌+◌, true, false, not, ◌||◌, List, [], ◌∷◌, ◌++◌, none, some, ◌≡◌, ◌≢◌, refl, ap, ◌∙◌,
  inl, inr, arith, ltb, ◌==◌, if◌then◌else◌, Bool-cases,
}
use traffic.Message.{Store, Table, set_packet, set_message, update}
use traffic.Packet.{Packet, HdrError, message_id}
use traffic.Parser.{Config, lookup, delete, store, first_id, emit, expire}

pub lookup-delete_same : (k : ℕ) (t : Table) → lookup k (delete k t) ≡ none
unfolding lookup delete
lookup-delete_same k [] = refl
lookup-delete_same k ((j, v) ∷ t) = ground (arith, lookup-delete_same k t)

pub lookup-delete_ne : (k l : ℕ) (t : Table) → l ≢ k → lookup l (delete k t) ≡ lookup l t
unfolding lookup delete
lookup-delete_ne k l [] h = refl
lookup-delete_ne k l ((j, v) ∷ t) h = ground (arith, lookup-delete_ne k l t h)

-- The map keeps one value to a key, as Go's map: a stored value is found, the other keys keep theirs.
pub lookup-store :
    (k l v : ℕ) (t : Table) → lookup l (store k v t) ≡ (if k == l then some v else lookup l t)
unfolding lookup store
lookup-store k l v t = elim (Bool-cases (k == l)) [
  | inl e ↦ rw (e) refl
  | inr e ↦ rw (e) (lookup-delete_ne k l t (ground arith))
]

-- What the timer's step for the message `i` of the id `id` leaves.
pub record Removed (cfg : Config) (s : Store) (i id : ℕ) (t : Store) : Type 0 where
  pub gone : lookup id t.table ≡ none
  pub others : (k : ℕ) → k ≢ id → lookup k t.table ≡ lookup k s.table
  pub emitted_when :
      t.emitted
      ≡ (if not cfg.http || cfg.allow_incomplete then s.emitted ++ (i ∷ []) else s.emitted)

message_id-known :
    (p : Packet) (id : ℕ) → p.message_id ≡ suc id → message_id {E = HdrError} p ≡ ok (p, suc id)
unfolding message_id
message_id-known p id h =
    let z : (p.message_id == 0) ≡ false = ground (arith, h) in
    let e : message_id {E = HdrError} p ≡ ok (p, p.message_id) = rw (z, message_id) refl in
    e ∙ ap (λ n. ok (p, n)) h

first_id-known :
    (s : Store) (r id : ℕ) (ps rs : List ℕ)
    → ps ≡ r ∷ rs
    → (s.packet r).message_id ≡ suc id
    → first_id {E = HdrError} s ps ≡ ok (set_packet s r (s.packet r), suc id)
unfolding first_id
first_id-known s r id ps rs e h = rw (e, first_id, message_id-known (s.packet r) id h) refl

pub update_same : {A : Type 0} (f : ℕ → A) (i : ℕ) (a : A) → update f i a i ≡ a
update_same f i a = ground arith

emit-known :
    (s : Store) (i r id : ℕ) (rs : List ℕ)
    → (s.message i).packets ≡ r ∷ rs
    → (s.packet r).message_id ≡ suc id
    → emit {E = HdrError} s i
      ≡ ok (record (set_packet s r (s.packet r)) {
        table = delete (suc id) s.table;
        emitted = s.emitted ++ (i ∷ []);
      })
unfolding emit
emit-known s i r id rs e h = rw (first_id-known s r id (s.message i).packets rs e h) refl

-- The timer's step for a message with packets, the first of which holds its id: a message that was
-- added to within the expiry time is left as it is; an older one is removed from the map, which keeps
-- its other keys, and it is emitted exactly when the parser has no hints or allows incomplete messages.
pub expire_branches :
    (cfg : Config) (now : ℕ) (s : Store) (i r id : ℕ) (rs : List ℕ)
    → (s.message i).packets ≡ r ∷ rs
    → (s.packet r).message_id ≡ suc id
    → Returns {E = HdrError}
        (λ t.
          if ltb ((s.message i).end_at + cfg.message_expire) now
          then Removed cfg s i (suc id) t
          else t ≡ s)
        (expire {E = HdrError} cfg now s i)
unfolding expire
expire_branches cfg now s i r id rs e h =
    let m = s.message i in
    let late = set_message s i (record m { timed_out = true }) in
    let packets : (late.message i).packets ≡ r ∷ rs =
      ap (λ n. n.packets) (update_same s.message i (record m { timed_out = true })) ∙ e in
    let same : (update s.packet r (s.packet r) r).message_id ≡ suc id =
      ap (λ p. p.message_id) (update_same s.packet r (s.packet r)) ∙ h in
    let gone : Store = record (set_packet late r (s.packet r)) {
      table = delete (suc id) s.table;
      emitted = s.emitted ++ (i ∷ []);
    } in
    elim (Bool-cases (ltb (m.end_at + cfg.message_expire) now)) [
      | inr l ↦ rw (l) refl
      | inl l ↦ elim (Bool-cases (not cfg.http || cfg.allow_incomplete)) [
        | inl b ↦
            rw
              (
                l,
                b,
                emit-known late i r id rs packets h,
                first_id-known gone r id m.packets rs e same,
              )
              (record {
                gone = lookup-delete_same (suc id) (delete (suc id) s.table);
                others = λ k n.
                    lookup-delete_ne (suc id) k (delete (suc id) s.table) n
                    ∙ lookup-delete_ne (suc id) k s.table n;
                emitted_when = rw b refl;
              })
        | inr b ↦
            rw (l, b, first_id-known late r id m.packets rs e h)
              (record {
                gone = lookup-delete_same (suc id) s.table;
                others = λ k n. lookup-delete_ne (suc id) k s.table n;
                emitted_when = rw b refl;
              })
      ]
    ]
