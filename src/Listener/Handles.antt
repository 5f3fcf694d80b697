-- ===== src/Listener/Handles.antt =====
-- listener/ip_listener.go: the handles that packets are read from, one goroutine to each, and their end.
use traffic.Base.Encoding.{All}
use traffic.Base.{
  ℕ, ◌+◌, ◌<◌, Bool, true, false, ◌||◌, List, [], ◌∷◌, ◌++◌, Option, none, some, ◌==◌,
  if◌then◌else◌, length, ◌≡◌, refl, sym, ◌∙◌, arith, inl, inr, Bool-cases,
}
use traffic.Http.Search.{Bytes, equal}
use traffic.Listener.{LinkTypes, pcap_link_type_length, is_one_of}
use traffic.Packet.{CaptureInfo}

-- The handles of an `IPListener` by their names. `closed` holds the names of those that were closed,
-- and `dones` counts the closes of the channel `closeDone`, of which a second one panics.
pub record Handles : Type 0 where
  pub open_names : List Bytes
  pub closed : List Bytes
  pub dones : ℕ

unfoldable pub has_name : Bytes → List Bytes → Bool
has_name k [] = false
has_name k (n ∷ names) = equal n k || has_name k names

-- `delete(l.Handles, key)`
unfoldable pub remove : Bytes → List Bytes → List Bytes
remove k [] = []
remove k (n ∷ names) = let rest = remove k names in if equal n k then rest else n ∷ rest

-- `closeHandles`; `is_closer` is whether the handler of a name can be closed
unfoldable pub close_handles : (Bytes → Bool) → Handles → Bytes → Handles
unfolding has_name remove
close_handles is_closer h key =
    if has_name key h.open_names
    then record h {
      open_names = remove key h.open_names;
      closed = h.closed ++ (if is_closer key then key ∷ [] else []);
      dones = if length (remove key h.open_names) == 0 then h.dones + 1 else h.dones;
    }
    else h

-- What a round of the loop of `readPcap` finds: the close of `quit`, a tick, a captured packet, an
-- error of time or one that is temporary, or another error.
pub data ReadEvent : Type 0 where
  quitting ticked timed_out temporary failed : ReadEvent
  captured : Bytes → CaptureInfo → ReadEvent

-- the loop of `readPcap`: the packets that it hands to the parser of messages
unfoldable pub read_loop : List ReadEvent → List (Bytes × CaptureInfo)
read_loop [] = []
read_loop (quitting ∷ events) = []
read_loop (ticked ∷ events) = read_loop events
read_loop (timed_out ∷ events) = read_loop events
read_loop (temporary ∷ events) = read_loop events
read_loop (failed ∷ events) = []
read_loop (captured data_read cp ∷ events) = (data_read, cp) ∷ read_loop events

-- the goroutine of a handle, of libpcap with its link type or not: the size of its link header, and
-- what is read
unfoldable pub read_handle : LinkTypes → Option ℕ → List ReadEvent → ℕ × List (Bytes × CaptureInfo)
unfolding read_loop
read_handle types none events = (14, read_loop events)
read_handle types (some link_type) events =
    let (size, known) = pcap_link_type_length types link_type in
    if known then (size, read_loop events) else (size, [])

-- The goroutines of the handles end one after the other, in any order.
unfoldable pub close_each : (Bytes → Bool) → Handles → List Bytes → Handles
close_each is_closer h [] = h
close_each is_closer h (key ∷ keys) = close_each is_closer (close_handles is_closer h key) keys

remove_absent : (k : Bytes) (names : List Bytes) → has_name k names ≡ false → remove k names ≡ names
unfolding has_name remove
remove_absent k [] h = refl
remove_absent k (n ∷ names) h = ground (arith, remove_absent k names)

close_handles-remove :
    (is_closer : Bytes → Bool) (h : Handles) (k : Bytes)
    → (close_handles is_closer h k).open_names ≡ remove k h.open_names
unfolding close_handles
close_handles-remove is_closer h k = elim (Bool-cases (has_name k h.open_names)) [
  | inl e ↦ rw (e, close_handles) refl
  | inr e ↦ rw (e, close_handles) (sym (remove_absent k h.open_names e))
]

-- the channel is closed when no handle is open
abbrev IsSignalled : Handles → Type 0
IsSignalled h = h.dones ≡ (if length h.open_names == 0 then 1 else 0)

has_name-length :
    (k : Bytes) (names : List Bytes) → has_name k names ≡ true → (length names == 0) ≡ false
unfolding has_name
has_name-length k [] h = absurd cc
has_name-length k (n ∷ names) h = ground arith

close_handles-IsSignalled :
    (is_closer : Bytes → Bool) (h : Handles) (k : Bytes)
    → IsSignalled h
    → IsSignalled (close_handles is_closer h k)
unfolding close_handles
close_handles-IsSignalled is_closer h k s = elim (Bool-cases (has_name k h.open_names)) [
  | inr e ↦ rw (e, close_handles) s
  | inl e ↦
      let z = has_name-length k h.open_names e in
      let d : h.dones ≡ 0 = s ∙ rw z refl in rw (e, close_handles, d) refl
]

remove-All :
    (k : Bytes) (keys names : List Bytes)
    → All (λ n. is_one_of n (k ∷ keys) ≡ true) names
    → All (λ n. is_one_of n keys ≡ true) (remove k names)
unfolding remove is_one_of
remove-All k keys [] h = tt
remove-All k keys (n ∷ names) h = elim (Bool-cases (equal n k)) [
  | inl e ↦ rw (e, remove) (remove-All k keys names h.1)
  | inr e ↦ rw (e, remove) (simp e at h.0, remove-All k keys names h.1)
]

none_open : (names : List Bytes) → All (λ n. is_one_of n [] ≡ true) names → names ≡ []
unfolding is_one_of
none_open [] h = refl
none_open (n ∷ names) h = absurd (let k = h.0 in cc)

close_each-signals :
    (is_closer : Bytes → Bool) (keys : List Bytes) (h : Handles)
    → IsSignalled h
    → All (λ n. is_one_of n keys ≡ true) h.open_names
    → ((close_each is_closer h keys).open_names ≡ []) × ((close_each is_closer h keys).dones ≡ 1)
unfolding close_each
close_each-signals is_closer [] h s a = let e = none_open h.open_names a in (e, s ∙ rw e refl)
close_each-signals is_closer (k ∷ keys) h s a =
    close_each-signals is_closer keys (close_handles is_closer h k)
      (close_handles-IsSignalled is_closer h k s)
      (rw (close_handles-remove is_closer h k) (remove-All k keys h.open_names a))

-- When the goroutines of all open handles have ended, in whichever order and how often they call it, no
-- handle is open and the channel that the listener waits for was closed exactly once, a second close of
-- which would panic.
pub close_each_once :
    (is_closer : Bytes → Bool) (h : Handles) (keys : List Bytes)
    → 0 < length h.open_names
    → h.dones ≡ 0
    → All (λ n. is_one_of n keys ≡ true) h.open_names
    → ((close_each is_closer h keys).open_names ≡ []) × ((close_each is_closer h keys).dones ≡ 1)
close_each_once is_closer h keys l d a =
    let z : (length h.open_names == 0) ≡ false = ground arith in
    close_each-signals is_closer keys h (d ∙ rw z refl) a
