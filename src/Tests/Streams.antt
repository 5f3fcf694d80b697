-- ===== src/Tests/Streams.antt =====
-- Runs of the parser over events, of the input and of the output of requests.
use mathlib.Core.List.{Permᴰ}
use traffic.Base.Encoding.{ℤ, pos, negsuc, All, decimal, hex, big_endian}
use traffic.Base.Outcome.{ok, IfOk, Returns, ◌>>=◌}
use traffic.Base.{
  ◌≤◌, ◌<◌, true, false, List, [], ◌∷◌, ◌++◌, map, none, some, ◌≡◌, ◌≢◌, refl, arith, length,
}
use traffic.Http.State.{get_last as get_last_payload}
use traffic.Http.State.{total_length as state_total}
use traffic.Listener.{is_one_of}
use traffic.Listener.Handles.{Handles, close_each, close_each_once}
use traffic.FileInput.{open_readers, emit}
use traffic.Http.Search.{Bytes, codes, equal, has_suffix}
use traffic.Input.{HttpInput, MessageStats, OutputMessage, received, plugin_reader, parse_ports}
use traffic.Input.Ports.{joined_ports, parse_ports-joined_ports}
use traffic.Input.Stream.{add_each_stats, add_each_stats-bounds, plugin_writer-plugin_reader}
use traffic.Message.Arrival.{add_each, contents, add_each-perm}
use traffic.Message.View.{view, put_first, view-add}
use traffic.Message.{Store, add, seq_of, message_data, without_expect, continues, message_uuid}
use traffic.Output.Files.{
  World, FileOutput, FileError, http_protocol, filename, plugin_writer, flush_round, get_last,
  chunk_due, note_message, update_name,
}
use traffic.Output.Files.Fresh.{IsAscending, filename-ne}
use traffic.Output.Files.ReadBack.{records, emit-recorded}
use traffic.Output.Files.Entries.{Entry, entry_payload}
use traffic.Output.Files.Written.{HasAdded, recorded, plugin_writer-flush_round}
use traffic.Output.Names.{get_file_index, set_file_index}
use traffic.Output.Names.Index.{get_file_index-set_file_index}
use traffic.Packet.{HdrError, copy_slice, copy_all, ip2int, be32, total_length}
use traffic.Parser.Invariant.{IsSoundStore, wait-IsSoundStore}
use traffic.Parser.Sound.{IsSound}
use traffic.Parser.{Config, Event, frame, tick, wait}
use traffic.Payload.{split, payload_header}
use traffic.Tests.Messages.{first, message, packets, packets-IsMessage, config}
use traffic.Tests.{capture, link, net, trans, get}

view-add_example : view (add packets 0 1).0 0 ≡ put_first (view packets 0) (seq_of packets 1) 1
view-add_example = view-add packets 0 1 (packets-IsMessage 0)

add_each-perm_example :
    contents (add_each packets 0 (0 ∷ 1 ∷ [])) 0 ≡ contents (add_each packets 0 (1 ∷ 0 ∷ [])) 0
add_each-perm_example =
    add_each-perm packets 0 (0 ∷ 1 ∷ []) (1 ∷ 0 ∷ []) (packets-IsMessage 0)
      ((omega arith, tt), (tt, tt)) (Permᴰ.swap refl refl)

pub packets-IsSound : IsSound 2 packets
packets-IsSound = record {
  used = refl;
  well_formed = packets-IsMessage;
  allocated = λ i. (omega arith, tt);
}

abbrev hinted_config : Config
hinted_config = record config { http = true }

abbrev events : List Event
events = frame 9 (link ++ (net ++ (trans ++ get))) 14 capture ∷ tick 99 (9 ∷ []) ∷ []

wait-IsSoundStore_example : IfOk IsSoundStore (wait 5 hinted_config packets events)
wait-IsSoundStore_example = wait-IsSoundStore 5 hinted_config packets events packets-IsSound

get_file_index-set_file_index_example :
    get_file_index (set_file_index (codes "a.b/req_1.log") (negsuc 6)) ≡ negsuc 6
get_file_index-set_file_index_example =
    get_file_index-set_file_index (codes "a.b/req_1.log") (negsuc 6) (omega arith)

abbrev output : FileOutput
output = record {
  path_template = codes "req.log";
  current_name = [];
  file = none;
  queue_length = 0;
  request_per_file = false;
  current_id = [];
  payload_type = [];
  closed = false;
  current_file_size = 0;
  total_file_size = 0;
  config = record { size_limit = pos 0; queue_limit = pos 256; append = false };
  contents = λ name. [];
}

-- an output with an open file
abbrev open_output : FileOutput
open_output = record output { file = some (record { name = codes "old.log"; zipped = false }) }

abbrev world : World
world = record {
  date = λ name. [];
  order = [];
  glob = λ p. some (codes "req_1.log" ∷ []);
  sort = λ names. names;
  clean = λ p. p;
  can_open = λ p. true;
  stat = none;
}

filename-ne_example : All (λ m. m ≢ filename world output) (codes "req_1.log" ∷ [])
unfolding IsAscending chunk_due get_last get_file_index
filename-ne_example =
    filename-ne world output (codes "req_1.log") (codes "req_1.log") [] [] refl refl refl refl
      (record { same = Permᴰ.cons refl Permᴰ.nil; ascending = (tt, tt) }) (refl, tt) (omega arith)

plugin_writer-flush_round_example :
    IfOk
      (λ x. flush_round world x.0 ≡ none)
      (plugin_writer http_protocol (λ m b. (none, false)) world output (codes "2 a 7 0") get)
plugin_writer-flush_round_example =
    plugin_writer-flush_round http_protocol (λ m b. (none, false)) world world output
      (codes "2 a 7 0") get refl

abbrev entry : Entry
entry = record { uuid = codes "a"; timing = pos 7; latency = pos 0; body = get }

abbrev as_length : Bytes → ℤ
as_length s = pos (length s)

emit-recorded_example :
    (open_readers {E = HdrError} as_length (some (records (entry ∷ [])) ∷ []) >>= emit as_length 2)
    ≡ ok (map entry_payload (entry ∷ []))
unfolding split equal
emit-recorded_example =
    emit-recorded as_length 2 entry []
      (
        record {
          one_line = (omega arith, tt);
          one_word = (omega arith, tt);
          storable = (refl, tt);
        },
        tt,
      )
      (omega arith)

abbrev input : HttpInput
input = record { stats = true; message_stats = []; closed = false; quits = 0; cancels = 0 }

abbrev stats : MessageStats
stats = record { lost_data = 0; size = 3; start = 5; end_at = 5 }

add_each_stats-bounds_example :
    (0 < length (add_each_stats input (stats ∷ [])).message_stats)
    × (length (add_each_stats input (stats ∷ [])).message_stats ≤ 10000)
add_each_stats-bounds_example = add_each_stats-bounds input stats [] (omega arith)

parse_ports-joined_ports_example : parse_ports (joined_ports 80 (8080 ∷ [])) ≡ some (80 ∷ 8080 ∷ [])
parse_ports-joined_ports_example =
    parse_ports-joined_ports 80 (8080 ∷ []) (omega arith, (omega arith, tt))

-- the message that the input gives of one packet
abbrev given : OutputMessage
given = record { meta = codes "1 1f9000500a00000100000007 5 0" ++ (b'\n' ∷ []); body = get }

given-read :
    plugin_reader {E = FileError} pos input 3 (received packets 0)
    ≡ ok (record input { message_stats = stats ∷ [] }, some given)
unfolding plugin_reader message_data copy_slice copy_all without_expect continues message_uuid
    ip2int be32 payload_header total_length hex big_endian decimal
given-read = refl

-- a file system in which the output gets another name
abbrev renaming : World
renaming = record world { clean = λ p. codes "new.log" }

plugin_writer-plugin_reader_example :
    Returns
      (λ x.
        HasAdded (update_name renaming open_output) (recorded given.meta get) x.0
        × (x.1 ≡ length (recorded given.meta get)))
      (plugin_writer http_protocol (λ m b. (none, false)) renaming open_output given.meta get)
unfolding has_suffix equal note_message update_name
plugin_writer-plugin_reader_example =
    plugin_writer-plugin_reader pos (λ m b. (none, false)) input
      (record input { message_stats = stats ∷ [] }) 3 packets 0 given renaming open_output
      open_output given-read refl refl

abbrev post : Bytes
post =
    codes "POST / HTTP/1.1"
    ++ (b'\r' ∷ b'\n' ∷ (codes "Content-Length: 2" ++ (b'\r' ∷ b'\n' ∷ b'\r' ∷ b'\n' ∷ codes "ab")))

-- a message of one packet with a whole request, that was not looked at before
abbrev posted : Store
posted = record packets {
  packet = λ r. record first { payload = post };
  message = λ i. record message { size = 40 };
}

abbrev handles : Handles
handles = record { open_names = codes "eth0" ∷ codes "lo" ∷ []; closed = []; dones = 0 }

close_each_once_example :
    ((close_each (λ n. true) handles (codes "lo" ∷ codes "eth0" ∷ codes "lo" ∷ [])).open_names ≡ [])
    × ((close_each (λ n. true) handles (codes "lo" ∷ codes "eth0" ∷ codes "lo" ∷ [])).dones ≡ 1)
unfolding is_one_of
close_each_once_example =
    close_each_once (λ n. true) handles (codes "lo" ∷ codes "eth0" ∷ codes "lo" ∷ []) (omega arith)
      refl (refl, (refl, tt))
