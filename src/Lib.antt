-- ===== src/Lib.antt =====
-- Traffic recording: packets that are captured on the network are put together into messages, the
-- messages are cut out as HTTP requests and responses, filtered, and handed to outputs.
--
-- How the parts interact. The listener (listener/ip_listener.go) hands captured frames to the parser of
-- messages (tcp/tcp_message.go), which parses each frame into a packet (tcp/tcp_packet.go), finds the
-- message of the packet by its id, adds the packet to it, and asks the hints of the listener whether
-- the message is complete, which look at its data as HTTP (proto/proto.go). A message is emitted when
-- it is complete or has waited for too long. The input (input/input_http.go) writes the line of
-- proto/goreplay.go for it. The emitter (emitter.go) copies messages from an input to the outputs, and
-- lets a filter (modifier/http_modifier.go) drop requests and their responses by that line. The outputs
-- to files (output/output_file.go, output/output_response_file.go) write records, which the input from
-- files (input/input_file.go) reads back. The program (perfma-replay.go) starts with the inputs and the
-- outputs that its settings ask for (settings.go, plugins.go).
--
-- The modules:
--   Base: tests, lists over the native numbers, bits, hexadecimal and decimal text, and `Outcome`,
--     which a call ends in: a value, an error value, a run-time panic, or no end for lack of fuel.
--   Packet: tcp/tcp_packet.go. `parse_packet` is `ParsePacket` with `parse`, in a function for each
--     layer; `message_id` is `MessageID`, `copy_slice` is `copySlice`.
--   Core: core/new_packet.go. `parse` is the method `Parse`.
--   ByteUtils: byteutils/byteutils.go. A slice is a list; `copy` inside one array is `copy_range`.
--   Payload: proto/goreplay.go.
--   Http: proto/proto.go. Search has what is used of the packages bytes and strings, Title the first
--     line, Header the headers, Path the path, Chunked `CheckChunked`, State `HasFullPayload`.
--   Message: tcp/tcp_message.go, messages. Packets and messages are shared by pointers there, so both
--     stand in a store, under numbers; `add` is the method of that name.
--   Parser: tcp/tcp_message.go, the parser of messages: `process_packet`, `add_packet`,
--     `fix100_continue`, `emit`, `timer`, and `wait` over a list of events, with the hints
--     `http1_start_hint` and `http1_end_hint` of listener/ip_listener.go.
--   Modifier: modifier/http_modifier.go. Matching an expression is a parameter.
--   Emitter: emitter.go. `copy_multy` is `CopyMulty`, `round` a round of it up to the writes; the clock
--     and the writers are arguments.
--   Limiter: limiter.go. Stats: stats/gor_stat.go.
--   Input: input/input_http.go. `plugin_reader` is `PluginReader` of a message that the parser emitted,
--     `parse_ports` the ports of `NewHttpMessage`; `UnixNano` is a parameter.
--   Output: output/output_file.go and output/output_response_file.go. Names has `getFileIndex`,
--     `setFileIndex` and `Less`, Files the two outputs, `plugin_writer` and `response_writer` are their
--     methods `PluginWriter`, Tcp the worker of output/output_tcp.go, and
--     Kafka the functions of output/kafka.go and output/output_kafka.go. What a call finds in the
--     file system and on the clock is a `World`; the contents of the files are a field of the output.
--   FileInput: input/input_file.go. The unread bytes of an open file are a list; `parse_next` and
--     `next_reader` are `parseNext` and `nextReader`, `emit` is the method of that name without its
--     waiting and its loop over the files, and `strconv.ParseInt` is a parameter.
--   Listener: listener/ip_listener.go. `filter` is `Filter` with the functions that it calls,
--     `filter_package` is `filterPackage`; the numbers of the link types are a parameter.
--     Handles has `closeHandles` and the loop of `readPcap`, Devices `findPcapDevices`, `setInterfaces`
--     and `activatePcap`, Pcap the calls of `PcapHandle`, and Lifecycle `NewIPListener`, `Listen`,
--     `ListenBackground` and `listen` of input/input_http.go; what libpcap and the package net give are
--     arguments.
--   Size: size/size.go, with `parseDataUnit` of output/output_file.go.
--   Plugins: `extractLimitOptions` of plugins.go and `parseLimitOptions` of limiter.go; Registry has
--     `registerPlugin` and `InitPlugins`. A plugin is its type with its first option.
--   Settings: settings.go, and `main` of perfma-replay.go up to the start of the emitter; what the flags
--     and the constructors of plugins do is an argument.
--   Dubbo: proto/dubbo_codec.go, and `AssembleDubboData` of message/dubbo.go; what the third-party
--     package reads of a frame is an argument.
--   Messages: message/http.go, the records of responses; what net/http, net/textproto and gzip read is
--     an argument.
--   Tests: runs on concrete input.
--
-- Numbers of fixed width are natural numbers with their wrap-around written out; counts of bytes that
-- are in the memory do not reach theirs. A time is a count of
-- nanoseconds, 0 for the zero time. -1 as a position is `none`.
--
-- Fuel. The loop over the IPv6 extension headers takes fuel, `fuel_for` a frame of n bytes is
-- `2 * n + 1`. `find_line` and the trimming take the length of the payload, since each round moves on by a
-- byte. `add_packet` takes fuel for the calls that `Fix100Continue` makes of it. `check_chunked` takes
-- fuel for its rounds. `scan` takes the length of the file and 1, since each line is at least a byte.
-- `emit` of one file of n records takes n + 1, and of several files more than they have records.
-- `connect_from` takes 12, one more than the retries.
--
-- Not modelled: what libpcap does in its calls, the file system, the network and the console, the
-- starting of goroutines, the parsing of flags, what net/http reads, the bodies of Dubbo frames, which a
-- third-party package decodes, the client of Kafka, the reading of certificates; reports
-- and counters.
pub mod Base
pub mod Packet
pub mod Core
pub mod ByteUtils
pub mod Payload
pub mod Http
pub mod Message
pub mod Parser
pub mod Modifier
pub mod Emitter
pub mod Limiter
pub mod Stats
pub mod FileInput
pub mod Listener
pub mod Input
pub mod Output
pub mod Size
pub mod Plugins
pub mod Settings
pub mod Dubbo
pub mod Messages
pub mod Tests
