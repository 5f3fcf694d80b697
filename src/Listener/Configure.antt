-- ===== src/Listener/Configure.antt =====
-- listener/ip_listener.go: the part of `PcapHandle` that changes an inactive handle.
use mathlib.Core.Path.{subst}
use traffic.Base.Encoding.{pos, All, All-append}
use traffic.Base.{
  ℕ, ◌*◌, Bool, true, false, not, ◌&&◌, ◌||◌, List, [], ◌∷◌, ◌++◌, append_assoc, append-nil, Option,
  none, some, ◌≡◌, refl, sym, ap, ◌∙◌, ◌⊎◌, inl, inr, ◌==◌, if◌then◌else◌, length, Bool-cases,
}
use traffic.FileInput.{less}
use traffic.Http.Search.{Bytes, codes, equal}
use traffic.Listener.Pcap.{
  Call, new_inactive_handle, set_timestamp_source, set_promisc, set_rf_mon, set_snap_len,
  set_buffer_size, set_timeout, activate, set_bpf_filter, close, clean_up, PcapOptions, Attempt,
  ◌>>◌, try_call, try_when, configure, next,
}

pub pair :
    {a c : List Call} {b d : Option Call}
    → a ≡ c
    → b ≡ d
    → ◌≡◌ {A = List Call × Option Call} (a, b) (c, d)
pair h k = λ i. (h i, k i)

pub bind_ok :
    (m k : Attempt) (calls made : List Call) → m calls ≡ (made, none) → (m >> k) calls ≡ k made
bind_ok m k calls made e = ap (λ x. next x k) e

pub bind_failed :
    (m k : Attempt) (calls made : List Call) (c : Call)
    → m calls ≡ (made, some c)
    → (m >> k) calls ≡ (made, some c)
bind_failed m k calls made c e = ap (λ x. next x k) e

if_same : {A : Type 0} (b : Bool) (x : A) → (if b then x else x) ≡ x
if_same true x = refl
if_same false x = refl

-- a call that is made where it is asked for
abbrev pub only_when : Bool → Call → List Call
only_when test c = if test then c ∷ [] else []

-- The settings of an inactive handle, by the options, in order.
unfoldable pub settings_of : PcapOptions → ℕ → List Call
settings_of o snap =
    only_when (not (length o.timestamp_type == 0) && not (equal o.timestamp_type (codes "go")))
      (set_timestamp_source o.timestamp_type)
    ++ only_when o.promiscuous set_promisc
    ++ only_when o.monitor set_rf_mon
    ++ (set_snap_len snap ∷ [])
    ++ only_when (less (pos 0) o.buffer_size) (set_buffer_size o.buffer_size)
    ++ (set_timeout (if o.buffer_timeout == 0 then 2000 * 1000000 else o.buffer_timeout) ∷ [])

module _ (succeeds : Call → Bool) (tolerated : Bool) where
  -- Whether `PcapHandle` goes on behind a call: it has no error, or one of `SetRFMon` that is tolerated.
  abbrev pub passes : Call → Bool
  passes set_rf_mon = succeeds set_rf_mon || tolerated
  passes c = succeeds c

  abbrev pub Pass : List Call → Type 0
  Pass = All (λ c. passes c ≡ true)

  -- The first of some calls that does not pass.
  pub record Stop (cs : List Call) : Type 0 where
    pub before : List Call
    pub failing : Call
    pub after : List Call
    pub split : cs ≡ before ++ (failing ∷ after)
    pub pass : Pass before
    pub fails : passes failing ≡ false

  -- A function makes some calls up to the first that does not pass, whose error it returns.
  abbrev pub Performs : Attempt → List Call → List Call → Type 0
  Performs m cs calls =
      (Pass cs × (m calls ≡ (calls ++ cs, none)))
      ⊎ ((s : Stop cs) × (m calls ≡ (calls ++ (s.before ++ (s.failing ∷ [])), some s.failing)))

  Performs-bind :
      (m k : Attempt) (cs ds : List Call)
      → ((calls : List Call) → Performs m cs calls)
      → ((calls : List Call) → Performs k ds calls)
      → (calls : List Call) → Performs (m >> k) (cs ++ ds) calls
  Performs-bind m k cs ds h g calls = elim (h calls) [
    | inr (s, e) ↦ inr (
      record {
        before = s.before;
        failing = s.failing;
        after = s.after ++ ds;
        split = ap (λ xs. xs ++ ds) s.split ∙ append_assoc s.before (s.failing ∷ s.after) ds;
        pass = s.pass;
        fails = s.fails;
      },
      bind_failed m k calls _ s.failing e,
    )
    | inl (p, e) ↦ elim (g (calls ++ cs)) [
      | inl (q, f) ↦ inl (
        All-append _ cs ds p q,
        bind_ok m k calls (calls ++ cs) e ∙ f ∙ pair (append_assoc calls cs ds) refl,
      )
      | inr (s, f) ↦ inr (
        record {
          before = cs ++ s.before;
          failing = s.failing;
          after = s.after;
          split =
              ap (λ xs. cs ++ xs) s.split ∙ sym (append_assoc cs s.before (s.failing ∷ s.after));
          pass = All-append _ cs s.before p s.pass;
          fails = s.fails;
        },
        bind_ok m k calls (calls ++ cs) e ∙ f ∙ pair (simp append_assoc) refl,
      )
    ]
  ]

  try_call-Performs :
      (c : Call) (calls : List Call)
      → passes c ≡ succeeds c
      → Performs (try_call succeeds c) (c ∷ []) calls
  unfolding try_call
  try_call-Performs c calls h = elim (Bool-cases (succeeds c)) [
    | inl e ↦ inl ((h ∙ e, tt), rw e refl)
    | inr e ↦ inr (
      record { before = []; failing = c; after = []; split = refl; pass = tt; fails = h ∙ e },
      rw e refl,
    )
  ]

  try_when-Performs :
      (test : Bool) (c : Call) (calls : List Call)
      → passes c ≡ succeeds c
      → Performs (try_when succeeds test c) (only_when test c) calls
  unfolding try_when
  try_when-Performs true c calls h = try_call-Performs c calls h
  try_when-Performs false c calls h = inl (tt, pair (sym (append-nil calls)) refl)

  -- `SetRFMon`, whose error may be tolerated
  monitors : Bool → Attempt
  monitors test calls =
      let (made, failed) = try_when succeeds test set_rf_mon calls in
      (made, if tolerated then none else failed)

  monitors-Performs :
      (test : Bool) (calls : List Call) → Performs (monitors test) (only_when test set_rf_mon) calls
  unfolding monitors try_when try_call
  monitors-Performs false calls = inl (tt, pair (sym (append-nil calls)) (if_same tolerated none))
  monitors-Performs true calls = elim (Bool-cases (succeeds set_rf_mon)) [
    | inl e ↦ inl ((rw e refl, tt), rw e (pair refl (if_same tolerated none)))
    | inr e ↦ elim (Bool-cases tolerated) [
      | inl t ↦ inl ((rw (e, t) refl, tt), rw (e, t) refl)
      | inr t ↦ inr (
        record {
          before = [];
          failing = set_rf_mon;
          after = [];
          split = refl;
          pass = tt;
          fails = rw (e, t) refl;
        },
        rw (e, t) refl,
      )
    ]
  ]

  pub configure-Performs :
      (o : PcapOptions) (snap : ℕ) (calls : List Call)
      → Performs (configure succeeds o tolerated snap) (settings_of o snap) calls
  unfolding configure settings_of monitors
  configure-Performs o snap calls =
      let named = not (length o.timestamp_type == 0) && not (equal o.timestamp_type (codes "go")) in
      let t = set_timestamp_source o.timestamp_type in
      let big = less (pos 0) o.buffer_size in
      let b = set_buffer_size o.buffer_size in
      let timeout =
        set_timeout (if o.buffer_timeout == 0 then 2000 * 1000000 else o.buffer_timeout) in
      let m1 = try_when succeeds named t in
      let m2 = try_when succeeds o.promiscuous set_promisc in
      let m3 = monitors o.monitor in
      let m4 = try_call succeeds (set_snap_len snap) in
      let m5 = try_when succeeds big b in
      let c1 = only_when named t in
      let c2 = only_when o.promiscuous set_promisc in
      let c3 = only_when o.monitor set_rf_mon in
      let c4 = set_snap_len snap ∷ [] in
      let c5 = only_when big b in
      let h2 =
        Performs-bind m1 m2 c1 c2 (λ k. try_when-Performs named t k refl)
          (λ k. try_when-Performs o.promiscuous set_promisc k refl) in
      let h3 = Performs-bind (m1 >> m2) m3 (c1 ++ c2) c3 h2 (monitors-Performs o.monitor) in
      let h4 =
        Performs-bind (m1 >> m2 >> m3) m4 ((c1 ++ c2) ++ c3) c4 h3
          (λ k. try_call-Performs (set_snap_len snap) k refl) in
      let h5 =
        Performs-bind (m1 >> m2 >> m3 >> m4) m5 (((c1 ++ c2) ++ c3) ++ c4) c5 h4
          (λ k. try_when-Performs big b k refl) in
      let h6 =
        Performs-bind (m1 >> m2 >> m3 >> m4 >> m5) (try_call succeeds timeout)
          ((((c1 ++ c2) ++ c3) ++ c4) ++ c5) (timeout ∷ []) h5
          (λ k. try_call-Performs timeout k refl) in
      subst (λ cs. Performs (configure succeeds o tolerated snap) cs calls) (simp append_assoc)
        (h6 calls)

  -- The calls that are made for the device `name` with some settings, and the one whose error is returned.
  pub data Tidy (name filter : Bytes) (settings : List Call)
      : List Call → Option Call → Type 0 where
    not_created :
        succeeds (new_inactive_handle name) ≡ false
        → Tidy name filter settings
            (new_inactive_handle name ∷ [])
            (some (new_inactive_handle name))
    not_configured :
        succeeds (new_inactive_handle name) ≡ true
        → (s : Stop settings)
        → Tidy name filter settings
            (new_inactive_handle name ∷ (s.before ++ (s.failing ∷ clean_up ∷ [])))
            (some s.failing)
    not_activated :
        succeeds (new_inactive_handle name) ≡ true
        → Pass settings
        → succeeds activate ≡ false
        → Tidy name filter settings
            (new_inactive_handle name ∷ (settings ++ (activate ∷ clean_up ∷ [])))
            (some activate)
    closed :
        succeeds (new_inactive_handle name) ≡ true
        → Pass settings
        → succeeds activate ≡ true
        → succeeds (set_bpf_filter filter) ≡ false
        → Tidy name filter settings
            (new_inactive_handle name
              ∷ (settings ++ (activate ∷ set_bpf_filter filter ∷ close ∷ clean_up ∷ [])))
            (some (set_bpf_filter filter))
    opened :
        succeeds (new_inactive_handle name) ≡ true
        → Pass settings
        → succeeds activate ≡ true
        → succeeds (set_bpf_filter filter) ≡ true
        → Tidy name filter settings
            (new_inactive_handle name
              ∷ (settings ++ (activate ∷ set_bpf_filter filter ∷ clean_up ∷ [])))
            none
