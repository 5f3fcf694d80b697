-- ===== src/Parser/Complete.antt =====
-- listener/ip_listener.go and proto/proto.go: when the end hint calls a message complete.
use traffic.Base.Outcome.{Outcome, ok}
use traffic.Base.{
  ℕ, ◌+◌, ◌≤◌, ◌<◌, Bool, true, false, ◌||◌, ◌&&◌, none, some, ltb, if◌then◌else◌, length, ◌≡◌,
}
use traffic.Http.Header.{header_value}
use traffic.Http.Search.{Bytes, codes, crlf, empty_line, equal, has_suffix, index}
use traffic.Http.State.{HttpState, new_state}
use traffic.Http.Title.{ato_i, has_title}
use traffic.Packet.{HdrError}

-- The payload of a first packet has a title and all headers, up to an empty line, with these values.
pub record HasHeaders (p : Bytes) : Type 0 where
  pub is_title : has_title p ≡ true
  pub line_end : ℕ
  pub head_end : ℕ
  pub has_line : index p crlf ≡ some line_end
  pub has_end : index p empty_line ≡ some head_end
  pub inside : head_end + 4 ≤ length p
  pub coding : Bytes
  pub trailer : Bytes
  pub content : Bytes
  pub expect : Bytes
  pub has_coding : header_value {E = HdrError} p (codes "Transfer-Encoding") ≡ ok coding
  pub has_trailer : header_value {E = HdrError} p (codes "Trailer") ≡ ok trailer
  pub has_content : header_value {E = HdrError} p (codes "Content-Length") ≡ ok content
  pub has_expect : header_value {E = HdrError} p (codes "Expect") ≡ ok expect

module _ (p : Bytes) (h : HasHeaders p) where
  -- The body is in chunks: a transfer coding is given, and the payload names chunks.
  abbrev pub has_chunks : Bool
  has_chunks =
      ltb 0 (length h.coding)
      && elim (index p (codes "chunked")) [ none ↦ false | some i ↦ ltb 0 i ]

  -- Payloads of so many bytes, the last of which is given, hold all of the body that the headers announce:
  -- where it is in chunks, some bytes up to the last chunk, or up to the empty line behind the trailer if
  -- there is one; otherwise as many bytes as the length says.
  abbrev pub IsWholeOf : Bool → ℕ → Bytes → Type 0
  IsWholeOf true total last =
      (h.head_end + 4 < total)
      × (has_suffix last (if ltb 0 (length h.trailer) then empty_line else codes "0\r\n\r\n")
          ≡ true)
  IsWholeOf false total last = (ato_i h.content 10).0 + (h.head_end + 4) ≡ total

  abbrev pub IsWhole : ℕ → Bytes → Type 0
  IsWhole = IsWholeOf has_chunks

  -- the state behind the headers
  parsed : HttpState
  parsed = record new_state {
    header_start = h.line_end + 2;
    header_end = h.head_end + 4;
    body = h.head_end + 4;
  }

  -- the state behind the title
  started : HttpState
  started = record new_state { header_start = h.line_end + 2 }

  framed : Bool → HttpState
  framed true = record parsed { is_chunked = true; has_trailer = ltb 0 (length h.trailer) }
  framed false = record parsed { body_len = (ato_i h.content 10).0 }

  noted : HttpState → HttpState
  noted state = record state {
    continue100 = equal h.expect (codes "100-continue") || state.continue100;
  }
