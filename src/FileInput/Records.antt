-- ===== src/FileInput/Records.antt =====
-- input/input_file.go: a recorded payload is read back as it was written.
use traffic.Base.Encoding.{ℤ, All}
use traffic.Base.Outcome.{ok, slice-take, at}
use traffic.Base.{
  ℕ, zero, suc, ◌+◌, ◌-◌, ◌≤◌, ◌<◌, true, false, List, [], ◌∷◌, ◌++◌, append_assoc, append-nil,
  some, ◌≡◌, refl, sym, ap, ◌∙◌, arith, length, take, length-append, take-append_ge, drop-append_ge,
}
use traffic.FileInput.{FileReader, marker, next_line, scan, parse_next}
use traffic.Http.Search.{Bytes, equal}
use traffic.Packet.{HdrError}
use traffic.Payload.{index_byte, payload_meta}
use traffic.Payload.Meta.{Lacks, index_byte-append}

-- Lines, each with its end.
unfoldable pub joined : List Bytes → Bytes
joined [] = []
joined (w ∷ ws) = w ++ (b'\n' ∷ joined ws)

-- A line without its end that holds no other end and is not the marker.
pub record IsLine (w : Bytes) : Type 0 where
  pub one_line : Lacks b'\n' w
  pub not_marker : equal marker (w ++ (b'\n' ∷ [])) ≡ false

next_line-append :
    (w more : Bytes)
    → Lacks b'\n' w
    → next_line (w ++ (b'\n' ∷ more)) ≡ some (w ++ (b'\n' ∷ []), more)
unfolding next_line
next_line-append w more h =
    rw
      (
        index_byte-append w more b'\n' h,
        next_line,
        take-append_ge 1 w (b'\n' ∷ more),
        drop-append_ge 1 w (b'\n' ∷ more),
      )
      refl

scan_step :
    (fuel : ℕ) (buffer unread line more : Bytes)
    → next_line unread ≡ some (line, more)
    → equal marker line ≡ false
    → scan (suc fuel) buffer unread ≡ scan fuel (buffer ++ line) more
unfolding scan
scan_step fuel buffer unread line more h n = rw (scan, h, n) refl

scan_found :
    (fuel : ℕ) (buffer unread line more : Bytes)
    → next_line unread ≡ some (line, more)
    → equal marker line ≡ true
    → scan (suc fuel) buffer unread ≡ some (buffer, more)
unfolding scan
scan_found fuel buffer unread line more h n = rw (scan, h, n) refl

next_line-marker : (more : Bytes) → next_line (marker ++ more) ≡ some (marker, more)
unfolding next_line index_byte
next_line-marker more = refl

marker-same : equal marker marker ≡ true
unfolding equal
marker-same = refl

scan-joined :
    (fuel : ℕ) (ws : List Bytes) (buffer more : Bytes)
    → All IsLine ws
    → length ws < fuel
    → scan fuel buffer (joined ws ++ (marker ++ more)) ≡ some (buffer ++ joined ws, more)
unfolding joined
scan-joined zero ws buffer more h l = absurd (omega arith)
scan-joined (suc fuel) [] buffer more h l =
    scan_found fuel buffer (marker ++ more) marker more (next_line-marker more) marker-same
    ∙ ap (λ b. some (b, more)) (sym (append-nil buffer))
scan-joined (suc fuel) (w ∷ ws) buffer more h l =
    let end_line = w ++ (b'\n' ∷ []) in
    let after = joined ws ++ (marker ++ more) in
    ap (scan (suc fuel) buffer) (append_assoc w (b'\n' ∷ joined ws) (marker ++ more))
    ∙ scan_step fuel buffer (w ++ (b'\n' ∷ after)) end_line after
        (next_line-append w after h.0.one_line) h.0.not_marker
    ∙ scan-joined fuel ws (buffer ++ end_line) more h.1 (omega arith)
    ∙ ap (λ b. some (b, more))
        (append_assoc buffer end_line (joined ws)
          ∙ ap (◌++◌ buffer) (append_assoc w (b'\n' ∷ []) (joined ws)))

pub length-joined : (ws : List Bytes) → length ws ≤ length (joined ws)
unfolding joined
length-joined [] = omega arith
length-joined (w ∷ ws) = omega (arith, length-joined ws, length-append w (b'\n' ∷ joined ws))

-- A payload that was written as lines, none of which is the marker, in front of the marker is read
-- back, without the last line end: its third field gives the time, and the reader goes on behind the
-- marker.
pub parse_next-joined :
    (parse_int : Bytes → ℤ) (f : FileReader) (ws : List Bytes) (time more : Bytes)
    → All IsLine ws
    → f.unread ≡ joined ws ++ (marker ++ more)
    → at {E = HdrError} (payload_meta (joined ws)) 2 ≡ ok time
    → parse_next {E = HdrError} parse_int f
      ≡ ok (
        record f {
          unread = more;
          body = take (length (joined ws) - 1) (joined ws);
          timestamp = parse_int time;
        },
        true,
      )
unfolding parse_next
parse_next-joined parse_int f ws time more h e t =
    let l = length-joined ws in
    let m = length-append (joined ws) (marker ++ more) in
    let found =
      scan-joined (length (joined ws ++ (marker ++ more)) + 1) ws [] more h (omega arith) in
    rw
      (
        e,
        parse_next,
        found,
        t,
        slice-take {E = HdrError} (joined ws) (length (joined ws) - 1) (omega arith),
      )
      refl
