-- ===== src/Tests/Starting.antt =====
-- Runs of the start of the program, of the parts that it sets up, and of several files of requests.
use mathlib.Core.List.{Permᴰ}
use mathlib.Core.Option.{some-injective}
use traffic.Base.Encoding.{ℤ, pos, negsuc, decimal}
use traffic.Base.Outcome.{Outcome, ok, panic, Returns, ◌>>=◌}
use traffic.Base.{
  ℕ, ◌+◌, Bool, true, false, not, ◌&&◌, List, [], ◌∷◌, ◌++◌, map, none, some, ◌≡◌, refl, sym, ap,
  ◌∙◌, arith, length, ◌==◌, if◌then◌else◌, inl, inr, Bool-cases, ==_iff,
}
use traffic.Dubbo.{Package, Flags, other_body, nil, has_flag, is_nil, assemble_dubbo_data}
use traffic.Dubbo.Records.{assemble_dubbo_data_response}
use traffic.FileInput.Held.{all_entries, InOrder}
use traffic.FileInput.Merge.{emit-merged}
use traffic.FileInput.{open_readers, emit, less}
use traffic.Http.Chunked.{check_chunked}
use traffic.Http.Header.Change.{headed, header_value-set_header}
use traffic.Http.Header.Bare.{header-panics}
use traffic.Http.Header.{set_header, header_value, delete_header}
use traffic.Http.Search.{Bytes, codes, equal, equal_fold, has_prefix, mime_headers_start_pos}
use traffic.Http.Title.{has_title, ato_i}
use traffic.Payload.{index_byte, split}
use traffic.FileInput.Records.{joined}
use traffic.Http.Whole.{Chunk, sent, sent_all, size_all, size_of, check_chunked-sent_all}
use traffic.Listener.Configure.{Tidy, settings_of}
use traffic.Listener.Devices.{snap_len}
use traffic.Listener.Pcap.{Call, PcapOptions, pcap_handle, set_bpf_filter}
use traffic.Listener.Tidy.{expression_of, pcap_handle-Tidy}
use traffic.Message.{Store}
use traffic.Parser.Draining.{Drains, timer-wait}
use traffic.Parser.Clearing.{is_key, AreKeys, some-ne-none}
use traffic.Parser.Ids.{IsIndexed}
use traffic.Parser.{Event, tick, wait, timer, expire, lookup}
use traffic.Tests.Messages.{packets, config}
use traffic.Tests.Streams.{packets-IsSound}
use traffic.Output.Files.Entries.{Entry, IsEntry, entry_payload}
use traffic.Output.Files.ReadBack.{records}
use traffic.Packet.{HdrError, message_id}
use traffic.Plugins.Limits.{readable, writable, init_plugins-plain}
use traffic.Plugins.Registry.{PluginSettings, init_plugins}
use traffic.Settings.Start.{HasSizes, check_settings-HasSizes}
use traffic.Settings.{AppSettings, StartError, defaults, check_settings}

abbrev asked : PluginSettings
asked = record defaults.plugin_settings {
  input_http = codes ":80" ∷ codes ":81|10" ∷ [];
  output_stdout = true;
  output_file = codes "a.log|1" ∷ [];
}

init_plugins-plain_example :
    ((init_plugins asked).inputs ≡ readable asked) × ((init_plugins asked).outputs ≡ writable asked)
init_plugins-plain_example = init_plugins-plain asked

-- a stand-in for the parsing of integers
abbrev as_length : Bytes → ℤ
as_length s = pos (length s)

abbrev as_checked : Bytes → ℤ × Bool
as_checked s = elim (length s == 2) [ true ↦ (pos 32, false) | false ↦ (pos 5, false) ]

abbrev settings : AppSettings
settings = record defaults {
  plugin_settings = asked;
  biz_protocol = codes "http" ∷ [];
  size_limit = negsuc 0;
}

check_settings-HasSizes_example :
    let checked = record settings { size_limit = pos 33554432; copy_buffer_size = pos 5242880 } in
    (check_settings as_checked as_checked {E = StartError} settings ≡ ok checked) × HasSizes checked
unfolding less
check_settings-HasSizes_example =
    check_settings-HasSizes as_checked as_checked refl refl {E = StartError} settings

-- a stand-in for the flags of the package dubbo-go
abbrev flags : Flags
flags = record {
  two_way = 4;
  heartbeat = 8;
  request = 1;
  response = 2;
  header_length = 16;
  response_ok = 20;
}

abbrev heartbeat_package : Package
heartbeat_package = record {
  id = pos 7;
  serial_id = 2;
  kind = 10;
  response_status = 20;
  body_len = 0;
  method = [];
  body = other_body;
  failure = nil;
}

assemble_dubbo_data_response_example :
    assemble_dubbo_data {E = HdrError} flags
      (λ frame. ok heartbeat_package)
      (λ frame. panic)
      (0xda ∷ 0xbb ∷ 0x22 ∷ [])
    ≡ (if has_flag heartbeat_package.kind flags.heartbeat
          && (has_flag heartbeat_package.kind flags.response
              && not (is_nil heartbeat_package.failure))
        then ok none
        else panic)
assemble_dubbo_data_response_example =
    assemble_dubbo_data_response flags (λ frame. ok heartbeat_package) (λ frame. panic)
      (0xda ∷ 0xbb ∷ 0x22 ∷ []) 0x22 refl heartbeat_package refl refl

abbrev options : PcapOptions
options = record {
  timestamp_type = codes "host";
  promiscuous = true;
  monitor = false;
  snaplen = false;
  buffer_size = pos 0;
  buffer_timeout = 0;
  bpf_filter = [];
}

-- libpcap refuses the filter
abbrev refuses : Call → Bool
refuses (set_bpf_filter f) = false
refuses _ = true

pcap_handle-Tidy_example :
    Tidy refuses false
      (codes "lo")
      (expression_of options (codes "tcp"))
      (settings_of options (snap_len options.snaplen (codes "lo") []))
      (pcap_handle refuses options false (codes "lo") [] (codes "tcp")).0
      (pcap_handle refuses options false (codes "lo") [] (codes "tcp")).1
pcap_handle-Tidy_example = pcap_handle-Tidy refuses options false (codes "lo") [] (codes "tcp")

abbrev recorded_at : ℕ → Entry
recorded_at n = record { uuid = codes "a"; timing = pos n; latency = pos 0; body = codes "GET" }

recorded_at-IsEntry : (n : ℕ) → IsEntry (recorded_at n)
unfolding split equal
recorded_at-IsEntry n = record {
  one_line = (omega arith, tt);
  one_word = (omega arith, tt);
  storable = (refl, tt);
}

abbrev files : List (List Entry)
files = (recorded_at 70 ∷ []) ∷ (recorded_at 7 ∷ recorded_at 700 ∷ []) ∷ []

emit-merged_example :
    (merged : List Entry) × ((open_readers {E = HdrError} as_length
          (map (λ ms. some (records ms)) files)
        >>= emit as_length 4)
      ≡ ok (map entry_payload merged))
    × Permᴰ merged (all_entries files)
    × InOrder as_length merged
unfolding less decimal all_entries
emit-merged_example =
    emit-merged as_length 4 files
      ((recorded_at-IsEntry 70, tt), ((recorded_at-IsEntry 7, (recorded_at-IsEntry 700, tt)), tt))
      ((λ e. absurd (omega (arith, ap length e))), ((λ e. absurd (omega (arith, ap length e))), tt))
      ((tt, tt), (((refl, tt), (tt, tt)), tt)) (omega arith)

abbrev front : Bytes
front = codes "GET / HTTP/1.1" ++ (b'\r' ∷ b'\n' ∷ [])

abbrev others : List Bytes
others = (codes "Host: a" ++ (b'\r' ∷ [])) ∷ []

-- a request whose header x-id has the value
abbrev with_id : Bytes → Bytes
with_id value = headed front others (codes "x-id") value (b'\r' ∷ b'\n' ∷ [])

header_value-set_header_example :
    (set_header {E = HdrError} (with_id (codes "7")) (codes "X-Id") (codes "42")
      ≡ ok (with_id (codes "42")))
    × ((set_header {E = HdrError} (with_id (codes "7")) (codes "X-Id") (codes "42") >>= λ payload.
          header_value payload (codes "X-Id"))
        ≡ ok (codes "42"))
unfolding has_title joined has_prefix index_byte mime_headers_start_pos equal_fold
header_value-set_header_example =
    header_value-set_header front others (codes "X-Id") (codes "x-id") (b'\r' ∷ b'\n' ∷ [])
      (
        (
          (
            omega arith,
            (
              omega arith,
              (
                omega arith,
                (omega arith, (omega arith, (omega arith, (omega arith, (omega arith, tt))))),
              ),
            ),
          ),
          refl,
        ),
        tt,
      )
      (record {
        one_line = (omega arith, (omega arith, (omega arith, (omega arith, tt))));
        no_colon = (omega arith, (omega arith, (omega arith, (omega arith, tt))));
        same_name = refl;
      })
      (codes "7") (codes "42") refl refl (omega arith, tt) (omega arith, (omega arith, tt))
      (record { not_empty = omega arith; first_visible = omega arith; last_visible = omega arith })
      (record { not_empty = omega arith; first_visible = omega arith; last_visible = omega arith })

header-panics_example :
    let payload = front ++ (joined others ++ (codes "x-id" ++ (b':' ∷ b'\n' ∷ b'\n' ∷ []))) in
    (header_value {E = HdrError} payload (codes "X-Id") ≡ panic)
    × (set_header {E = HdrError} payload (codes "X-Id") (codes "42") ≡ panic)
    × (delete_header {E = HdrError} payload (codes "X-Id") ≡ panic)
unfolding has_title joined has_prefix index_byte mime_headers_start_pos equal_fold
header-panics_example =
    header-panics front others (codes "X-Id") (codes "x-id") (b'\n' ∷ []) (codes "42")
      (
        (
          (
            omega arith,
            (
              omega arith,
              (
                omega arith,
                (omega arith, (omega arith, (omega arith, (omega arith, (omega arith, tt))))),
              ),
            ),
          ),
          refl,
        ),
        tt,
      )
      (record {
        one_line = (omega arith, (omega arith, (omega arith, (omega arith, tt))));
        no_colon = (omega arith, (omega arith, (omega arith, (omega arith, tt))));
        same_name = refl;
      })
      refl

abbrev body_chunk : Chunk
body_chunk = record { size_text = codes "3"; octets = codes "abc" }

abbrev last_chunk : Chunk
last_chunk = record { size_text = codes "0"; octets = [] }

check_chunked-sent_all_example :
    check_chunked {E = HdrError} 2 (sent_all (body_chunk ∷ []) (sent last_chunk []) ∷ [])
    ≡ ok (size_all (body_chunk ∷ []) + size_of last_chunk, true)
unfolding sent_all sent ato_i
check_chunked-sent_all_example =
    check_chunked-sent_all 2 [] [] (body_chunk ∷ []) last_chunk
      (
        (
          record { not_empty = omega arith; one_line = (omega arith, tt); size = refl },
          omega arith,
        ),
        tt,
      )
      (record { not_empty = omega arith; one_line = (omega arith, tt); size = refl }) refl
      (omega arith) (omega arith)

packets-IsIndexed : IsIndexed packets
unfolding lookup message_id
packets-IsIndexed = record {
  keyed = λ k i. elim (Bool-cases (9 == k)) [
    | inl e ↦ λ f. record {
      first = 0;
      others = [];
      is_cons = refl;
      has_id = ap (λ n. ok (packets.packet 0, n)) ((==_iff 9 k).0 e);
    }
    | inr e ↦ λ f. absurd (some-ne-none (sym f ∙ rw e refl))
  ];
  within = λ k i. elim (Bool-cases (9 == k)) [
    | inl e ↦ λ f.
        let here : lookup k packets.table ≡ some 0 = rw e refl in
        let at_0 : 0 ≡ i = some-injective 0 i (sym here ∙ f) in omega (arith, at_0)
    | inr e ↦ λ f. absurd (some-ne-none (sym f ∙ rw e refl))
  ];
}

-- a tick for which nothing is late
abbrev ticks : List Event
ticks = tick 12 (9 ∷ []) ∷ []

-- what a run ends with
abbrev store_of : Outcome HdrError Store → Store
store_of (ok t) = t
store_of _ = packets

abbrev ticked : Store
ticked = store_of (wait 5 config packets ticks)

wait-ticked : wait 5 config packets ticks ≡ ok ticked
unfolding wait timer expire lookup
wait-ticked = refl

ticked_table : ticked.table ≡ (9, 0) ∷ []
unfolding wait timer expire lookup
ticked_table = refl

has_key : (k i : ℕ) → lookup k ticked.table ≡ some i → is_key k (9 ∷ []) ≡ true
unfolding lookup is_key
has_key k i = rw ticked_table (elim (Bool-cases (9 == k)) [
  | inl e ↦ λ f. rw e refl
  | inr e ↦ λ f. absurd (some-ne-none (sym f ∙ rw e refl))
])

timer-wait_example :
    Returns {E = HdrError}
      (λ u. (k i : ℕ) → lookup k ticked.table ≡ some i → Drains config 99 ticked u k i)
      (timer config 99 ticked (9 ∷ []))
unfolding AreKeys is_key
timer-wait_example =
    timer-wait 5 config packets ticked ticks 99 (9 ∷ []) refl packets-IsSound packets-IsIndexed
      wait-ticked (refl, tt) has_key
