-- ===== src/Parser/Late.antt =====
-- tcp/tcp_message.go: the step of the timer for one message that is late, or is not.
use traffic.Base.Outcome.{ok, Returns}
use traffic.Base.{
  ℕ, ◌+◌, Bool, true, false, not, ◌||◌, List, [], ◌∷◌, ◌++◌, append-nil, none, some, ◌≡◌, ◌≢◌, refl,
  sym, ap, ◌∙◌, inl, inr, ltb, ◌==◌, if◌then◌else◌, Bool-cases, ==_iff,
}
use traffic.Message.{Store, Message, set_packet, set_message, update}
use traffic.Packet.{Packet, HdrError, message_id}
use traffic.Parser.Emission.{lookup-delete_same, lookup-delete_ne}
use traffic.Parser.{Config, lookup, delete, first_id, emit, expire}

-- The first of some packets has the id k.
pub record HasId (packet : ℕ → Packet) (ps : List ℕ) (k : ℕ) : Type 0 where
  pub first : ℕ
  pub others : List ℕ
  pub is_cons : ps ≡ first ∷ others
  pub has_id : message_id {E = HdrError} (packet first) ≡ ok (packet first, k)

-- The message under each key of the map has packets, and their id is the key.
abbrev pub IsKeyed : Store → Type 0
IsKeyed s = (k i : ℕ) → lookup k s.table ≡ some i → HasId s.packet (s.message i).packets k

-- whether a message has waited for too long
abbrev pub is_late : Config → ℕ → Message → Bool
is_late cfg now m = ltb (m.end_at + cfg.message_expire) now

-- whether a message that is late is emitted
abbrev pub emits : Config → Bool
emits cfg = not cfg.http || cfg.allow_incomplete

-- The packets are the same, and the messages have the same packets and times.
pub record IsKept (s t : Store) : Type 0 where
  pub packet : (r : ℕ) → t.packet r ≡ s.packet r
  pub packets : (j : ℕ) → (t.message j).packets ≡ (s.message j).packets
  pub end_at : (j : ℕ) → (t.message j).end_at ≡ (s.message j).end_at
  pub used : t.messages_used ≡ s.messages_used

pub IsKept-refl : (s : Store) → IsKept s s
IsKept-refl s = record { packet = λ r. refl; packets = λ j. refl; end_at = λ j. refl; used = refl }

pub IsKept-trans : (s t u : Store) → IsKept s t → IsKept t u → IsKept s u
IsKept-trans s t u h k = record {
  packet = λ r. k.packet r ∙ h.packet r;
  packets = λ j. k.packets j ∙ h.packets j;
  end_at = λ j. k.end_at j ∙ h.end_at j;
  used = k.used ∙ h.used;
}

pub update_self : {A : Type 0} (f : ℕ → A) (r j : ℕ) → update f r (f r) j ≡ f j
update_self f r j = elim (Bool-cases (j == r)) [
  | inl e ↦ rw e (ap f (sym ((==_iff j r).0 e)))
  | inr e ↦ rw e refl
]

-- a field that a new value for i keeps
update_field :
    {A B : Type 0} (field : A → B) (f : ℕ → A) (i j : ℕ) (a : A)
    → field a ≡ field (f i)
    → field (update f i a j) ≡ field (f j)
update_field field f i j a h = elim (Bool-cases (j == i)) [
  | inl e ↦ rw e (h ∙ ap (λ n. field (f n)) (sym ((==_iff j i).0 e)))
  | inr e ↦ rw e refl
]

pub HasId-same :
    (f g : ℕ → Packet) (ps qs : List ℕ) (k : ℕ)
    → ((r : ℕ) → g r ≡ f r)
    → qs ≡ ps
    → HasId f ps k
    → HasId g qs k
HasId-same f g ps qs k h e w = record {
  first = w.first;
  others = w.others;
  is_cons = e ∙ w.is_cons;
  has_id = ap message_id (h w.first) ∙ w.has_id ∙ ap (λ p. ok (p, k)) (sym (h w.first));
}

first_id-HasId :
    (s : Store) (ps : List ℕ) (k : ℕ) (w : HasId s.packet ps k)
    → first_id {E = HdrError} s ps ≡ ok (set_packet s w.first (s.packet w.first), k)
unfolding first_id
first_id-HasId s ps k w = rw (w.is_cons, first_id, w.has_id) refl

emit-HasId :
    (s : Store) (i k : ℕ) (w : HasId s.packet (s.message i).packets k)
    → emit {E = HdrError} s i
      ≡ ok (record (set_packet s w.first (s.packet w.first)) {
        table = delete k s.table;
        emitted = s.emitted ++ (i ∷ []);
      })
unfolding emit
emit-HasId s i k w = rw (first_id-HasId s (s.message i).packets k w) refl

-- What the timer's step leaves of a late message.
pub record IsExpired (cfg : Config) (s : Store) (i k : ℕ) (t : Store) : Type 0 where
  pub gone : lookup k t.table ≡ none
  pub others : (l : ℕ) → l ≢ k → lookup l t.table ≡ lookup l s.table
  pub emitted : t.emitted ≡ s.emitted ++ (if emits cfg then i ∷ [] else [])
  pub kept : IsKept s t

abbrev timed : Store → ℕ → Store
timed s i = set_message s i (record (s.message i) { timed_out = true })

timed-IsKept : (s : Store) (i : ℕ) → IsKept s (timed s i)
timed-IsKept s i = record {
  packet = λ q. refl;
  packets = λ j. update_field (λ m. m.packets) s.message i j _ refl;
  end_at = λ j. update_field (λ m. m.end_at) s.message i j _ refl;
  used = refl;
}

-- a store that differs by a packet that is written back, the map and what was emitted
self-IsKept :
    (s t : Store) (r : ℕ)
    → t.packet ≡ update s.packet r (s.packet r)
    → t.message ≡ s.message
    → t.messages_used ≡ s.messages_used
    → IsKept s t
self-IsKept s t r e m u = record {
  packet = λ q. ap (λ f. f q) e ∙ update_self s.packet r q;
  packets = λ j. ap (λ f. (f j).packets) m;
  end_at = λ j. ap (λ f. (f j).end_at) m;
  used = u;
}

pub HasId-kept :
    (s t : Store) (i k : ℕ)
    → IsKept s t
    → HasId s.packet (s.message i).packets k
    → HasId t.packet (t.message i).packets k
HasId-kept s t i k h w =
    HasId-same s.packet t.packet (s.message i).packets (t.message i).packets k h.packet
      (h.packets i) w

pub expire_late :
    (cfg : Config) (now : ℕ) (s : Store) (i k : ℕ)
    → is_late cfg now (s.message i) ≡ true
    → HasId s.packet (s.message i).packets k
    → Returns {E = HdrError} (IsExpired cfg s i k) (expire {E = HdrError} cfg now s i)
unfolding expire
expire_late cfg now s i k l w =
    let late = timed s i in
    let kept = timed-IsKept s i in
    let ps = (s.message i).packets in
    elim (Bool-cases (emits cfg)) [
      | inl b ↦
          let wl = HasId-kept s late i k kept w in
          let t : Store = record (set_packet late wl.first (late.packet wl.first)) {
            table = delete k s.table;
            emitted = s.emitted ++ (i ∷ []);
          } in
          let kt : IsKept s t =
            IsKept-trans s late t kept (self-IsKept late t wl.first refl refl refl) in
          let wt = HasId-same s.packet t.packet ps ps k kt.packet refl w in
          rw (l, b, emit-HasId late i k wl, first_id-HasId t ps k wt)
            (record {
              gone = lookup-delete_same k (delete k s.table);
              others =
                  λ j n. lookup-delete_ne k j (delete k s.table) n ∙ lookup-delete_ne k j s.table n;
              emitted = rw b refl;
              kept = IsKept-trans s t _ kt (self-IsKept t _ wt.first refl refl refl);
            })
      | inr b ↦
          rw (l, b, first_id-HasId late ps k w)
            (record {
              gone = lookup-delete_same k s.table;
              others = λ j n. lookup-delete_ne k j s.table n;
              emitted = rw b (sym (append-nil s.emitted));
              kept = IsKept-trans s late _ kept (self-IsKept late _ w.first refl refl refl);
            })
    ]

pub expire_early :
    (cfg : Config) (now : ℕ) (s : Store) (i : ℕ)
    → is_late cfg now (s.message i) ≡ false
    → expire {E = HdrError} cfg now s i ≡ ok s
unfolding expire
expire_early cfg now s i l = rw l refl
