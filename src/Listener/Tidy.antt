-- ===== src/Listener/Tidy.antt =====
-- listener/ip_listener.go: what `PcapHandle` leaves of the handles that it makes.
use mathlib.Core.Path.{subst}
use traffic.Base.{
  ℕ, Bool, List, [], ◌∷◌, ◌++◌, append_assoc, Option, none, some, ◌≡◌, refl, sym, ap, ◌∙◌, inl, inr,
  ◌==◌, if◌then◌else◌, length, Bool-cases,
}
use traffic.Http.Search.{Bytes}
use traffic.Listener.Devices.{snap_len}
use traffic.Listener.Pcap.{
  Call, new_inactive_handle, activate, set_bpf_filter, close, clean_up, PcapOptions, Attempt, ◌>>◌,
  try_call, configure, open_handle, set_filter, with_clean_up, pcap_handle,
}
use traffic.Listener.Configure.{
  opened, not_created, not_configured, not_activated, closed, Tidy, settings_of, pair, bind_ok,
  bind_failed, configure-Performs,
}

-- The expression that the handle is to filter by: the one of the options, or that of the listener.
abbrev pub expression_of : PcapOptions → Bytes → Bytes
expression_of o filter = if length o.bpf_filter == 0 then filter else o.bpf_filter

module _ (succeeds : Call → Bool) where
  -- the calls behind the settings, and the error
  ending : Bytes → List Call × Option Call
  ending f =
      if succeeds activate
      then (if succeeds (set_bpf_filter f)
          then (activate ∷ set_bpf_filter f ∷ [], none)
          else (activate ∷ set_bpf_filter f ∷ close ∷ [], some (set_bpf_filter f)))
      else (activate ∷ [], some activate)

  open_handle-ending :
      (f : Bytes) (calls : List Call)
      → open_handle succeeds f calls ≡ (calls ++ (ending f).0, (ending f).1)
  unfolding open_handle try_call set_filter ending
  open_handle-ending f calls = elim (Bool-cases (succeeds activate)) [
    | inr a ↦ rw a refl
    | inl a ↦
        bind_ok (try_call succeeds activate) (set_filter succeeds f) calls
          (calls ++ (activate ∷ [])) (rw a refl)
        ∙ rw a (elim (Bool-cases (succeeds (set_bpf_filter f))) [
          | inl b ↦
              rw (b, set_filter)
                (pair (append_assoc calls (activate ∷ []) (set_bpf_filter f ∷ [])) refl)
          | inr b ↦ rw (b, set_filter) (pair (simp append_assoc) refl)
        ])
  ]

  with_clean_up-eq :
      (m : Attempt) (calls made : List Call) (r : Option Call)
      → m calls ≡ (made, r)
      → with_clean_up succeeds m calls ≡ (made ++ (clean_up ∷ []), r)
  unfolding with_clean_up
  with_clean_up-eq m calls made r e = rw e refl

  -- Whichever calls of libpcap have an error: the settings that the options ask for are made in order, up to
  -- the first that does not pass, whose error is returned; the handle is activated and given its filter
  -- where all of them pass, and closed where the filter is refused; the inactive handle is cleaned up at the
  -- end wherever it was made.
  pub pcap_handle-Tidy :
      (o : PcapOptions) (tolerated : Bool) (name : Bytes) (infs : List (Bytes × ℕ)) (filter : Bytes)
      → Tidy succeeds tolerated name
          (expression_of o filter)
          (settings_of o (snap_len o.snaplen name infs))
          (pcap_handle succeeds o tolerated name infs filter).0
          (pcap_handle succeeds o tolerated name infs filter).1
  unfolding pcap_handle try_call ending
  pcap_handle-Tidy o tolerated name infs filter =
      let first = new_inactive_handle name in
      let f = expression_of o filter in
      let snap = snap_len o.snaplen name infs in
      let cs = settings_of o snap in
      let m = configure succeeds o tolerated snap in
      let rest = m >> open_handle succeeds f in
      let tail = with_clean_up succeeds rest in
      let T : List Call × Option Call → Type 0 = λ x. Tidy succeeds tolerated name f cs x.0 x.1 in
      elim (Bool-cases (succeeds first)) [
        | inr e ↦
            subst T
              (sym (bind_failed (try_call succeeds first) tail [] (first ∷ []) first (rw e refl)))
              (not_created e)
        | inl e ↦
            subst T (sym (bind_ok (try_call succeeds first) tail [] (first ∷ []) (rw e refl)))
              (elim (configure-Performs succeeds tolerated o snap (first ∷ [])) [
                | inr (s, d) ↦
                    subst T
                      (sym (
                        with_clean_up-eq rest (first ∷ []) _ (some s.failing)
                          (bind_failed m (open_handle succeeds f) (first ∷ []) _ s.failing d)
                        ∙ pair
                            (ap (λ xs. first ∷ xs)
                              (append_assoc s.before (s.failing ∷ []) (clean_up ∷ [])))
                            refl))
                      (not_configured e s)
                | inl (p, d) ↦
                    subst T
                      (sym (
                        with_clean_up-eq rest (first ∷ []) _ (ending f).1 (
                          bind_ok m (open_handle succeeds f) (first ∷ []) (first ∷ cs) d
                          ∙ open_handle-ending f (first ∷ cs))
                        ∙ pair (append_assoc (first ∷ cs) (ending f).0 (clean_up ∷ [])) refl))
                      (elim (Bool-cases (succeeds activate)) [
                        | inr a ↦ rw a (not_activated e p a)
                        | inl a ↦ elim (Bool-cases (succeeds (set_bpf_filter f))) [
                          | inl b ↦ rw (a, b) (opened e p a b)
                          | inr b ↦ rw (a, b) (closed e p a b)
                        ]
                      ])
              ])
      ]
