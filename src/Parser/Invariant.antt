-- ===== src/Parser/Invariant.antt =====
-- tcp/tcp_message.go: the parser of messages keeps its store sound, with hints or without.
use mathlib.Core.Path.{subst}
use traffic.Base.Outcome.{
  Outcome, ok, err, panic, loops, IfOk, IfOk-bind, IfOk-bind_of, IfOk-if, IfOk-option,
}
use traffic.Base.{
  ℕ, ◌+◌, ◌<◌, true, not, ◌&&◌, ◌||◌, List, [], ◌∷◌, Option, none, some, ◌≡◌, refl, sym, inl, inr,
  arith, ltb, if◌then◌else◌, Bool-cases,
}
use traffic.Packet.{Packet, HdrError, message_id}
use traffic.Message.Order.{IsSorted, IsMessage-of, total_payload, total_lost, update_same}
use traffic.Message.{Store, Message, set_packet, set_message, is_unknown}
use traffic.Parser.Sound.{
  IsSame, IsSame-refl, IsSound, IsSound-packets, IsSound-set_packet, IsSound-rest, IsSound-message,
  IsSound-set_message,
}
use traffic.Parser.{
  Config, Event, frame, tick, lookup, first_id, emit, add_packet, resume, begin, process_stored,
  process_packet, expire, timer, handle, wait, parse_captured, hinted, http1_start_hint,
}
use traffic.Parser.Adding.{
  not_eq, message_id-IsSame, first_id-IsSound, emit-IsSound, add_packet-IsSound,
}

resume-IsSound :
    (fuel : ℕ) (cfg : Config) (n : ℕ) (s : Store) (i r : ℕ)
    → IsSound n s
    → r < n
    → IfOk {E = HdrError} (IsSound n) (resume fuel cfg s i r)
unfolding resume
resume-IsSound fuel cfg n s i r h l =
    let m = s.message i in
    let direct =
      set_message s i
        (record m { direction = hinted (http1_start_hint (s.packet r).payload) m.direction }) in
    let k : IsSound n (if is_unknown m.direction then direct else s) =
      elim (Bool-cases (is_unknown m.direction)) [
        | inl e ↦ rw e (IsSound-set_message n s i _ h refl refl refl)
        | inr e ↦ rw e h
      ] in
    IfOk-if (IsSound n) (is_unknown m.direction && not cfg.http) _ _ (λ e. tt)
      λ e.
        IfOk-bind_of (λ x. IsSound n x.0) (IsSound n)
          (add_packet fuel cfg (if is_unknown m.direction then direct else s) i r) _
          (add_packet-IsSound fuel cfg n _ i r k l) λ x o. o

-- a message without packets in the place of another
IsSound-empty :
    (n : ℕ) (s : Store) (i : ℕ) (m : Message)
    → IsSound n s
    → m.packets ≡ []
    → m.size ≡ 0
    → m.lost_data ≡ 0
    → IsSound n (set_message s i m)
unfolding IsSorted total_payload total_lost
IsSound-empty n s i m h packets size lost =
    let e = update_same s.message i m in
    IsSound-message n s (set_message s i m) i h refl refl (λ j x. rw x refl)
      (IsMessage-of (set_message s i m) i m e (rw packets tt) (rw packets size) (rw packets lost))
      (rw (e, packets) tt)

begin-IsSound :
    (fuel : ℕ) (cfg : Config) (n : ℕ) (s : Store) (id r : ℕ)
    → IsSound n s
    → r < n
    → IfOk {E = HdrError} (IsSound n) (begin fuel cfg s id r)
unfolding begin
begin-IsSound fuel cfg n s id r h l =
    IfOk-bind_of (λ x. IsSound n x.0) (IsSound n) _ _
      (add_packet-IsSound fuel cfg n _ s.messages_used r
        (IsSound-rest n _ _
          (IsSound-empty n (set_packet s r _) s.messages_used _
            (IsSound-set_packet n s r _ h (record { seq = refl; payload = refl; lost = refl })) refl
            refl refl)
          refl refl refl)
        l)
      λ x o. o

process_stored-IsSound :
    (fuel : ℕ) (cfg : Config) (n : ℕ) (s : Store) (r : ℕ)
    → IsSound n s
    → r < n
    → IfOk {E = HdrError} (IsSound n) (process_stored fuel cfg s r)
unfolding process_stored
process_stored-IsSound fuel cfg n s r h l =
    IfOk-bind_of (λ x. IsSame (s.packet r) x.0) (IsSound n) (message_id (s.packet r)) _
      (message_id-IsSame (s.packet r))
      λ x e.
        let t = set_packet s r x.0 in
        let k = IsSound-set_packet n s r x.0 h e in
        IfOk-option (IsSound n) (lookup x.1 s.table) _ _ (begin-IsSound fuel cfg n t x.1 r k l)
          (λ i. resume-IsSound fuel cfg n t i r k l)

-- a store that is sound with as many packets as it has
abbrev pub IsSoundStore : Store → Type 0
IsSoundStore s = IsSound s.packets_used s

IsSoundStore-of : (n : ℕ) (s : Store) → IsSound n s → IsSoundStore s
IsSoundStore-of n s h = subst (λ m. IsSound m s) (sym h.used) h

IfOk-IsSoundStore : (n : ℕ) (m : Outcome HdrError Store) → IfOk (IsSound n) m → IfOk IsSoundStore m
IfOk-IsSoundStore n (ok s) h = IsSoundStore-of n s h
IfOk-IsSoundStore n (err e) h = tt
IfOk-IsSoundStore n panic h = tt
IfOk-IsSoundStore n loops h = tt

process_packet-IsSound :
    (fuel : ℕ) (cfg : Config) (s : Store) (o : Option Packet)
    → IsSoundStore s
    → IfOk {E = HdrError} IsSoundStore (process_packet fuel cfg s o)
unfolding process_packet
process_packet-IsSound fuel cfg s none h = h
process_packet-IsSound fuel cfg s (some p) h =
    let r = s.packets_used in
    let t : Store = record (set_packet s r p) { packets_used = r + 1 } in
    let k : IsSound (r + 1) t =
      IsSound-packets r (r + 1) s t h (omega arith) refl refl
        λ q l. rw (not_eq q r l) (IsSame-refl (s.packet q)) in
    IfOk-IsSoundStore (r + 1) (process_stored fuel cfg t r)
      (process_stored-IsSound fuel cfg (r + 1) t r k (omega arith))

expire-IsSound :
    (cfg : Config) (now n : ℕ) (s : Store) (i : ℕ)
    → IsSound n s
    → IfOk {E = HdrError} (IsSound n) (expire cfg now s i)
unfolding expire
expire-IsSound cfg now n s i h =
    let m = s.message i in
    let late = set_message s i (record m { timed_out = true }) in
    let k : IsSound n late = IsSound-set_message n s i _ h refl refl refl in
    IfOk-if (IsSound n) (ltb (m.end_at + cfg.message_expire) now) _ _
      (λ e.
        IfOk-bind_of (IsSound n) (IsSound n)
          (if not cfg.http || cfg.allow_incomplete then emit late i else ok late) _
          (IfOk-if (IsSound n) (not cfg.http || cfg.allow_incomplete) _ _
            (λ x. emit-IsSound n late i k) (λ x. k))
          λ t l.
            IfOk-bind_of (λ x. IsSound n x.0) (IsSound n) (first_id t m.packets) _
              (first_id-IsSound n t m.packets l) λ x o. IsSound-rest n x.0 _ o refl refl refl)
      (λ e. h)

timer-IsSound :
    (cfg : Config) (now n : ℕ) (keys : List ℕ) (s : Store)
    → IsSound n s
    → IfOk {E = HdrError} (IsSound n) (timer cfg now s keys)
unfolding timer
timer-IsSound cfg now n [] s h = h
timer-IsSound cfg now n (k ∷ keys) s h =
    IfOk-bind_of (IsSound n) (IsSound n)
      (elim (lookup k s.table) [ none ↦ ok s | some i ↦ expire cfg now s i ]) _
      (IfOk-option (IsSound n) (lookup k s.table) _ _ h λ i. expire-IsSound cfg now n s i h)
      λ t l. timer-IsSound cfg now n keys t l

pub handle-IsSound :
    (fuel : ℕ) (cfg : Config) (s : Store) (e : Event)
    → IsSoundStore s
    → IfOk IsSoundStore (handle fuel cfg s e)
unfolding handle
handle-IsSound fuel cfg s (frame n bytes link_len cp) h =
    IfOk-bind IsSoundStore (parse_captured n cfg bytes link_len cp) _
      λ p. process_packet-IsSound fuel cfg s p h
handle-IsSound fuel cfg s (tick now keys) h =
    IfOk-IsSoundStore s.packets_used (timer cfg now s keys)
      (timer-IsSound cfg now s.packets_used keys s h)

-- Whatever frames and ticks the loop of the parser of messages receives, with hints or without: where
-- every message is well-formed and holds packets of the store alone, both still hold when it ends.
pub wait-IsSoundStore :
    (fuel : ℕ) (cfg : Config) (s : Store) (events : List Event)
    → IsSoundStore s
    → IfOk IsSoundStore (wait fuel cfg s events)
unfolding wait
wait-IsSoundStore fuel cfg s [] h = h
wait-IsSoundStore fuel cfg s (e ∷ events) h =
    IfOk-bind_of IsSoundStore IsSoundStore (handle fuel cfg s e) _ (handle-IsSound fuel cfg s e h)
      λ t k. wait-IsSoundStore fuel cfg t events k
