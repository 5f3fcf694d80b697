-- ===== src/Output/Files/Written.antt =====
-- output/output_file.go: what a message adds to the files.
use traffic.Base.Encoding.{ℤ, decimal}
use mathlib.Core.Path.{subst}
use traffic.Base.Outcome.{
  Outcome, ok, panic, Returns, Returns-bind, IfOk, IfOk-if, IfOk-bind, IfOk-bind_of, at,
}
use traffic.Base.{
  ℕ, Bool, true, false, [], ◌∷◌, ◌++◌, append-nil, Option, none, some, ◌==◌, not, if◌then◌else◌,
  length, ◌≡◌, ◌≢◌, refl, sym, ap, ◌∙◌, arith, inl, inr, Bool-cases, Option-cases, length-append,
}
use traffic.Http.Search.{Bytes, equal}
use traffic.Http.Equal.{equal_self, equal-same}
use traffic.Payload.{payload_header, payload_meta, payload_separator}
use traffic.Payload.Meta.{Lacks, payload_meta-header}
use traffic.Output.Files.{
  World, FileOutput, OpenFile, FileError, Protocol, http_protocol, is_current, close_locked, reopen,
  with_contents, has_zip_name, same_kind, note_message, update_name, write_bytes, assemble,
  plugin_writer, flush_round,
}

-- The bytes that a message adds to a file.
abbrev pub recorded : Bytes → Bytes → Bytes
recorded meta body = meta ++ (body ++ payload_separator)

-- The open file, if any, can be closed: its writer is of the kind that the current name asks for.
abbrev pub CanClose : FileOutput → Type 0
CanClose o = elim o.file [ none ↦ Unit | some f ↦ same_kind (has_zip_name o) f.zipped ≡ true ]

-- What is kept of the file of the current name: all of the open file, and nothing of another.
unfoldable pub kept : FileOutput → Bytes
unfolding is_current
kept o = if is_current o then o.contents o.current_name else []

-- The files are those of an output, but that of its current name, which has what is kept of it, and more.
unfoldable pub HasAdded : FileOutput → Bytes → FileOutput → Type 0
unfolding kept with_contents
HasAdded o added t =
    (k : Bytes) → t.contents k ≡ with_contents o.contents o.current_name (kept o ++ added) k

-- the file of the current name is open
abbrev IsOpen : FileOutput → FileOutput → Type 0
IsOpen o t = (f : OpenFile) × (t.file ≡ some f) × (f.name ≡ o.current_name)

same_contents :
    (contents : Bytes → Bytes) (name k : Bytes)
    → contents k ≡ with_contents contents name (contents name) k
unfolding with_contents
same_contents contents name k = elim (Bool-cases (equal k name)) [
  | inl e ↦ rw (e, with_contents) (ap contents (equal-same k name e))
  | inr e ↦ rw (e, with_contents) refl
]

is_current-IsOpen : (o : FileOutput) → is_current o ≡ true → IsOpen o o
unfolding is_current
is_current-IsOpen o h = elim (Option-cases o.file) [
  | inr (f, e) ↦
      let same : equal o.current_name f.name ≡ true = sym (rw (is_current, e) refl) ∙ h in
      (f, e, sym (equal-same o.current_name f.name same))
  | inl e ↦ absurd (let k : is_current o ≡ false = rw (is_current, e) refl in cc)
]

close_locked-ok :
    (o : FileOutput)
    → CanClose o
    → close_locked {E = FileError} o ≡ ok (record o { closed = true; current_file_size = 0 })
unfolding close_locked
close_locked-ok o h =
    let c : FileOutput = record o { closed = true; current_file_size = 0 } in
    let zip = has_zip_name o in
    let closing : Option OpenFile → Outcome FileError FileOutput =
      λ x. elim x [ none ↦ ok c | some f ↦ if same_kind zip f.zipped then ok c else panic ] in
    elim (Option-cases o.file) [
      | inl e ↦ ap closing e
      | inr (f, e) ↦
          let k : same_kind zip f.zipped ≡ true =
            subst (λ x. elim x [ none ↦ Unit | some f ↦ same_kind zip f.zipped ≡ true ]) e h in
          ap closing e ∙ rw k refl
    ]

reopen-HasAdded :
    (w : World) (o : FileOutput)
    → CanClose o
    → Returns (λ t. HasAdded o [] t × IsOpen o t) (reopen w o)
unfolding reopen HasAdded kept
reopen-HasAdded w o h = elim (Bool-cases (is_current o)) [
  | inl e ↦ rw e (
    λ k.
        same_contents o.contents o.current_name k
        ∙ ap (λ s. with_contents o.contents o.current_name s k)
            (sym (append-nil (o.contents o.current_name))),
    is_current-IsOpen o e,
  )
  | inr e ↦ elim (Bool-cases (w.can_open o.current_name)) [
    | inr c ↦ rw (e, close_locked-ok o h, c) tt
    | inl c ↦ rw (e, close_locked-ok o h, c) (λ k. refl, (_, refl, refl))
  ]
]

write_bytes-HasAdded :
    (s : Bytes) (o t : FileOutput) → HasAdded o [] t → IsOpen o t → HasAdded o s (write_bytes s t)
unfolding HasAdded write_bytes with_contents
write_bytes-HasAdded s o t h (f, e, n) k =
    let here : t.contents f.name ≡ kept o =
      ap t.contents n
      ∙ h o.current_name
      ∙ rw (with_contents, equal_self o.current_name) (append-nil (kept o)) in
    rw (e, write_bytes, with_contents, n)
      (elim (Bool-cases (equal k o.current_name)) [
        | inl x ↦ rw x (ap (λ c. c ++ s) (ap t.contents (sym n) ∙ here))
        | inr x ↦ rw x (h k ∙ rw (with_contents, x) refl)
      ])

-- A message of the HTTP protocol with a header line, the type and the id of which hold no space and no
-- newline, where the open file can be closed: unless a file cannot be opened, which ends the process, the
-- file of the current name, which is emptied first unless it is the open one, grows by the header, the body
-- and the separator where the message is a request, and by nothing otherwise; the other files stay as they
-- are, and as many bytes are reported.
pub plugin_writer-HasAdded :
    (dubbo_record : Bytes → Bytes → Option Bytes × Bool) (w : World) (o p : FileOutput)
    (payload_type : ℕ) (uuid : Bytes) (timing latency : ℤ) (body : Bytes)
    → payload_type ≢ b'\n'
    → Lacks b'\n' uuid
    → payload_type ≢ b' '
    → Lacks b' ' uuid
    → note_message o (payload_header payload_type uuid timing latency) ≡ ok p
    → CanClose (update_name w p)
    → Returns
        (λ (t, n).
          let meta = payload_header payload_type uuid timing latency in
          let added = if payload_type == b'1' then recorded meta body else [] in
          HasAdded (update_name w p) added t × (n ≡ length added))
        (plugin_writer http_protocol dubbo_record w o
          (payload_header payload_type uuid timing latency)
          body)
unfolding plugin_writer assemble equal HasAdded
plugin_writer-HasAdded dubbo_record w o p payload_type uuid timing latency body a b c d noted
      closes =
    let meta = payload_header payload_type uuid timing latency in
    let added = if payload_type == b'1' then recorded meta body else [] in
    let m : payload_meta meta ≡ (payload_type ∷ []) ∷ uuid ∷ decimal timing ∷ decimal latency ∷ [] =
      ap payload_meta (sym (append-nil meta))
      ∙ payload_meta-header payload_type uuid timing latency [] a b c d in
    let q = update_name w p in
    let Q : FileOutput × ℕ → Type 0 = λ (t, n). HasAdded q added t × (n ≡ length added) in
    rw noted (
      Returns-bind (λ t. HasAdded q [] t × IsOpen q t) Q (reopen w q) _ (reopen-HasAdded w q closes)
        λ t (f, g). elim (Bool-cases (payload_type == b'1')) [
          | inl x ↦
              rw (m, x)
                (
                  write_bytes-HasAdded (recorded meta body) q t f g,
                  omega (
                    arith,
                    length-append meta (body ++ payload_separator),
                    length-append body payload_separator,
                  ),
                )
          | inr x ↦ rw (m, x) (f, refl)
        ])

write_bytes-closed : (s : Bytes) (o : FileOutput) → (write_bytes s o).closed ≡ o.closed
unfolding write_bytes
write_bytes-closed s o = elim (Option-cases o.file) [
  | inl e ↦ rw (e, write_bytes) refl
  | inr (f, e) ↦ rw (e, write_bytes) refl
]

reopen-closed :
    (w : World) (o : FileOutput) → o.file ≡ none → IfOk (λ b. b.closed ≡ true) (reopen w o)
unfolding reopen is_current close_locked
reopen-closed w o h =
    rw (h, is_current, close_locked)
      (elim (Bool-cases (w.can_open o.current_name)) [ inl c ↦ rw c refl | inr c ↦ rw c tt ])

note_message-file :
    (o : FileOutput) (meta : Bytes) → IfOk (λ a. a.file ≡ o.file) (note_message o meta)
unfolding note_message
note_message-file o meta =
    let P : FileOutput → Type 0 = λ a. a.file ≡ o.file in
    IfOk-if P (not o.request_per_file) _ _ (λ e. refl)
      λ e.
        IfOk-bind P (at (payload_meta meta) 1) _
          λ id. IfOk-bind P (at (payload_meta meta) 0) _ λ payload_type. refl

-- An output that has no open file yet counts as closed once it was handed a message of any protocol,
-- recorded or not: the goroutine that flushes it ends in its next round, whatever that round finds.
pub plugin_writer-flush_round :
    (protocol : Protocol) (dubbo_record : Bytes → Bytes → Option Bytes × Bool) (w later : World)
    (o : FileOutput) (meta body : Bytes)
    → o.file ≡ none
    → IfOk (λ x. flush_round later x.0 ≡ none) (plugin_writer protocol dubbo_record w o meta body)
unfolding plugin_writer update_name flush_round
plugin_writer-flush_round protocol dubbo_record w later o meta body h =
    let Q : FileOutput × ℕ → Type 0 = λ x. flush_round later x.0 ≡ none in
    let ended : (c : FileOutput) → c.closed ≡ true → flush_round later c ≡ none =
      λ c e. rw (flush_round, e) refl in
    IfOk-bind_of (λ a. a.file ≡ o.file) Q (note_message o meta) _ (note_message-file o meta)
      λ a e.
        IfOk-bind_of (λ b. b.closed ≡ true) Q (reopen w (update_name w a)) _
          (reopen-closed w (update_name w a) (e ∙ h))
          λ b k. IfOk-bind Q (assemble protocol dubbo_record meta body) _ λ x.
            IfOk-if Q (not x.2) _ _ (λ n. ended b k)
              λ n.
                rw (flush_round, write_bytes-closed (x.0 ++ (x.1 ++ payload_separator)) b, k) refl
