-- ===== src/Lib.antt =====
-- The PMU data analytics program reads frames of the IEEE synchrophasor standard from a phasor data
-- concentrator over TCP, checks and parses them, keeps the last ones in a buffer, and serves them
-- as tables over HTTP. This library models the frame structures (src/frames.rs), the parser
-- (src/frame_parser.rs), the columnar frame buffer (src/frame_buffer.rs), the client and its buffer
-- of raw frames (src/pdc_client.rs), the conversion to tables (src/arrow_utils.rs), the HTTP server
-- (src/pdc_buffer_server.rs), the mock server for tests (src/pdc_server.rs) and the commands of the
-- program (src/main.rs).
--
-- Base holds what the models share: lists measured by native numbers, results that are a value, an
-- error or a panic (Base/Results), Boolean tests, machine words that overflow by the kind of build
-- (Base/Words), byte buffers whose indexing and slicing panic out of range (Base/Bytes),
-- slice.chunks (Base/Chunks) and hash maps as association lists (Base/Maps).
--
-- Frames/Crc is calculate_crc; its children prove what the checksum detects. Frames/Prefix is
-- PrefixFrame2011 with to_hex and from_hex. Frames/Command is CommandFrame2011: new_command, the
-- seven named commands and to_hex. Frames/Config is PMUConfigurationFrame2011 and
-- ConfigurationFrame1and2_2011 with the sizes of their fields and calc_data_frame_size. Frames/Data
-- has the types of data frames; an f32 is its bit pattern. Frames/Values is parse_phasors,
-- parse_analogs and parse_digitals. Frames/Channels is get_column_names and get_channel_map, with
-- the decoding of text and format! as parameters; Frames/Channels/Places and Fits say where the
-- channels lie.
--
-- Parser/Errors has ParseError, Frame and the prefix that every parser reads first; Parser/Command
-- is parse_command_frame, Parser/Data is parse_data_frames with one function for each branch of its
-- loop, Parser/Config is parse_config_frame_1and2, Parser/Dispatch is parse_frame.
-- Parser/Data/Bounds and Parser/Config/Bounds say how many bytes a parser needs. Each read of the
-- source that may panic is a step of the model that may panic. The modules Layout write frames
-- field by field in the order of the standard's tables, independently of the parser, and the
-- modules RoundTrip and Streams read them back.
--
-- FrameBuffer is PMUDataStore: new, add_column, add_frame. FrameBuffer/Query is
-- find_timestamp_index, get_last_n_seconds and get_column_slice. FrameBuffer/Invariant states when
-- a store is valid, FrameBuffer/History reads its vectors from the oldest slot on, and
-- FrameBuffer/Columns follows one column through a frame. FrameBuffer/Ranges, Search and Slices
-- carry the arithmetic of the queries, FrameBuffer/Recent puts them together, and FrameBuffer/Runs
-- follows a store from its beginning.
--
-- Client is the part of PDCClient that keeps frames: calculate_frame_size, initialize_buffer,
-- store_frame, get_buffer_contents and the clearing at shutdown. The deque of the heap panics on a
-- capacity of 2^63 bytes or more, at 40 bytes for each frame; that the memory of the machine runs
-- out is not modelled. Client/Connect is new and get_config_frame, against a server that is a
-- function from a request to the first 14 bytes of its answer and to what try_read_buf then reads
-- into a buffer of the capacity that the client asks for. Client/Stream is read_frame, shutdown and
-- start_stream: the loop takes a list of events, each a control message or the result of a read
-- with the time of the clock, and keeps what the client writes, closes and sends in order.
-- Client/Ready states when a client can store and send, Client/Runs, Steps, Ends and Causes follow
-- the loop, Client/Replies and Start the beginning, and Client/Clock a clock that is set back.
--
-- Arrow is build_arrow_schema and extract_channel_values; of the arrow crate a field is its name
-- and its type, and an array is the list of its values. Arrow/Loops and Shape say when the
-- extraction succeeds and with how many rows, Arrow/Layout is the bytes of a channel's value by the
-- standard, which Arrow/Values and Streams find in the columns. BufferServer is the handler
-- get_buffer_data, with the rest of the arrow crate as the parameter ArrowCrate of
-- BufferServer/Library, whose records BatchLaws and WriterLaws state what its documentation
-- promises. BufferServer/Settings is Config::from_env with the parsers of numbers as parameters,
-- BufferServer/Setup the beginning of run, BufferServer/Service the client's stream together with
-- the handler. MockServer is ServerConfig::new, read_test_file and handle_client, whose session is
-- a list of reads and ends of the interval. The data rate is the bits of a double; handle_client
-- begins with the interval, which panics for the rates whose reciprocal is no Duration, and the
-- length of the interval is otherwise left out, as a session says itself when an interval ends.
-- MockServer/Sessions gives it a client's commands, each whole in a read of its own, and
-- MockServer/Start connects the client of Client/Connect to it. CommandLine is what main starts for
-- each command, and CommandLine/Program puts the client's command, the mock server, the stream and
-- the handler together.
--
-- A u8, u16, u32, u64 or usize is a native number; where the code computes in u16 or u64 with
-- values that come from outside, the operation is Base/Words' word, which panics in a debug build
-- and wraps in a release build. Sums of usize offsets are bounded by the length of a buffer and are
-- not wrapped. The loops of the source run over lists or count down and need no fuel; only
-- slice.chunks recurses on fuel, the length of its list, which Base/Chunks shows to be enough. The
-- loops of the client and of the mock server have no bound in the source; a run is over the list of
-- the events so far. A HashMap is the list of its entries in the order of the iteration. For one
-- given to add_frame, Distinct says that each key occurs once.
--
-- The lines printed to the console are left out. Not modelled: the binding of listeners, the router
-- and the spawned tasks, the parsing of the command line, the prototype of src/phasor.rs, which no
-- module declares, and the declarations of src/frames_2024.rs.
pub mod Base
pub mod Frames
pub mod Parser
pub mod FrameBuffer
pub mod Client
pub mod Arrow
pub mod BufferServer
pub mod MockServer
pub mod CommandLine
pub mod Tests
