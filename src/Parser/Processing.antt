-- ===== src/Parser/Processing.antt =====
-- tcp/tcp_message.go: what a parser without hints does with a packet.
use mathlib.Core.Path.{subst}
use traffic.Base.Outcome.{Outcome, ok, panic, Returns}
use traffic.Base.{
  ℕ, suc, true, false, [], ◌∷◌, Option, none, some, ◌≡◌, ◌≢◌, refl, sym, ap, ◌∙◌, inl, inr, arith,
  if◌then◌else◌, Bool-cases, Option-cases, ◌⊎◌,
}
use traffic.Message.Order.{
  IsMessage, IsMessage-of, IsSorted, total_payload, total_lost, add-IsMessage,
}
use traffic.Message.{Store, Message, set_packet, is_unknown, has_seq, insert_packet, seq_of, add}
use traffic.Packet.{Packet, HdrError, message_id}
use traffic.Parser.Emission.{lookup-store, update_same}
use traffic.Parser.{Config, lookup, store, add_packet, resume, begin, process_stored}

add-table : (s : Store) (i r : ℕ) → (add s i r).0.table ≡ s.table
unfolding add
add-table s i r = elim (Bool-cases (has_seq (seq_of s) r (s.message i).packets)) [
  | inl e ↦ rw (e, add) refl
  | inr e ↦ rw (e, add) refl
]

add-emitted : (s : Store) (i r : ℕ) → (add s i r).0.emitted ≡ s.emitted
unfolding add
add-emitted s i r = elim (Bool-cases (has_seq (seq_of s) r (s.message i).packets)) [
  | inl e ↦ rw (e, add) refl
  | inr e ↦ rw (e, add) refl
]

add-packets :
    (s : Store) (i r : ℕ) → (s.message i).packets ≡ [] → ((add s i r).0.message i).packets ≡ r ∷ []
unfolding add has_seq insert_packet
add-packets s i r e = rw (e, add) (ap (λ m. m.packets) (update_same s.message i _))

pub add_packet-plain :
    (fuel : ℕ) (cfg : Config) (s : Store) (i r : ℕ)
    → cfg.http ≡ false
    → add_packet {E = HdrError} (suc fuel) cfg s i r ≡ ok (add s i r)
unfolding add_packet
add_packet-plain fuel cfg s i r h = elim (Bool-cases (add s i r).1) [
  | inl e ↦ rw (e, h) refl
  | inr e ↦ rw (e) refl
]

-- What a packet of a new id leaves: a message of its own, in the map under the id.
pub record Begun (s : Store) (id r : ℕ) (t : Store) : Type 0 where
  pub found : lookup id t.table ≡ some s.messages_used
  pub others : (k : ℕ) → k ≢ id → lookup k t.table ≡ lookup k s.table
  pub packets : (t.message s.messages_used).packets ≡ r ∷ []
  pub well_formed : IsMessage t s.messages_used
  pub none_emitted : t.emitted ≡ s.emitted

-- A store to which a message without packets was added under the id.
Begun-add :
    (s t : Store) (id r : ℕ) (m : Message)
    → t.message s.messages_used ≡ m
    → m.packets ≡ []
    → m.size ≡ 0
    → m.lost_data ≡ 0
    → t.table ≡ store id s.messages_used s.table
    → t.emitted ≡ s.emitted
    → Begun s id r (add t s.messages_used r).0
unfolding IsSorted total_payload total_lost
Begun-add s t id r m e none_yet size lost table emitted =
    let i = s.messages_used in
    record {
      found = rw (add-table t i r, table, lookup-store id id i s.table) (ground arith);
      others = λ k n. rw (add-table t i r, table, lookup-store id k i s.table) (ground arith);
      packets = add-packets t i r (rw e none_yet);
      well_formed =
          add-IsMessage t i r
            (IsMessage-of t i m e (rw none_yet tt) (rw none_yet size) (rw none_yet lost));
      none_emitted = add-emitted t i r ∙ emitted;
    }

begin-Begun :
    (fuel : ℕ) (cfg : Config) (s : Store) (id r : ℕ)
    → cfg.http ≡ false
    → Returns {E = HdrError} (Begun s id r) (begin (suc fuel) cfg s id r)
unfolding begin
begin-Begun fuel cfg s id r h =
    rw (begin, add_packet-plain fuel cfg _ _ _ h)
      (Begun-add s _ id r _ (update_same s.message s.messages_used _) refl refl refl refl refl)

resume-unknown :
    (fuel : ℕ) (cfg : Config) (s : Store) (i r : ℕ)
    → cfg.http ≡ false
    → is_unknown (s.message i).direction ≡ true
    → resume {E = HdrError} fuel cfg s i r ≡ panic
unfolding resume
resume-unknown fuel cfg s i r h u = rw (resume, u, h) refl

resume-known :
    (fuel : ℕ) (cfg : Config) (s : Store) (i r : ℕ)
    → cfg.http ≡ false
    → is_unknown (s.message i).direction ≡ false
    → resume {E = HdrError} (suc fuel) cfg s i r ≡ ok (add s i r).0
unfolding resume
resume-known fuel cfg s i r h u = rw (resume, u, add_packet-plain fuel cfg s i r h) refl

-- A parser without hints, on a packet whose id is found or computed. If the map has a message under
-- the id, the packet is added to it when the direction of the message is known, and otherwise the
-- parser panics, since it calls the hint that it does not have. If there is none, the packet makes a
-- well-formed message of its own under the id; the other ids keep theirs, and none is emitted.
pub process_stored_branches :
    (fuel : ℕ) (cfg : Config) (s : Store) (r : ℕ) (p : Packet) (id : ℕ)
    → cfg.http ≡ false
    → message_id {E = HdrError} (s.packet r) ≡ ok (p, id)
    → ((i : ℕ) × (lookup id s.table ≡ some i)
        × (process_stored {E = HdrError} (suc fuel) cfg s r ≡ (
            if is_unknown (s.message i).direction
            then panic
            else ok (add (set_packet s r p) i r).0)))
      ⊎ ((lookup id s.table ≡ none)
          × Returns {E = HdrError}
              (Begun (set_packet s r p) id r)
              (process_stored (suc fuel) cfg s r))
unfolding process_stored
process_stored_branches fuel cfg s r p id h e =
    let t = set_packet s r p in
    let go : Option ℕ → Outcome HdrError Store =
      λ o. elim o [ some i ↦ resume (suc fuel) cfg t i r | none ↦ begin (suc fuel) cfg t id r ] in
    let step : process_stored (suc fuel) cfg s r ≡ go (lookup id s.table) =
      rw (process_stored, e) refl in
    elim (Option-cases (lookup id s.table)) [
      | inr (i, l) ↦ inl (
        i,
        l,
        step ∙ ap go l ∙ elim (Bool-cases (is_unknown (s.message i).direction)) [
          | inl u ↦ rw u (resume-unknown (suc fuel) cfg t i r h u)
          | inr u ↦ rw u (resume-known fuel cfg t i r h u)
        ],
      )
      | inl l ↦
          inr (
            l,
            subst (Returns (Begun t id r)) (sym (step ∙ ap go l)) (begin-Begun fuel cfg t id r h),
          )
    ]
