-- ===== src/Lib.antt =====
-- EScp, a file transfer program that opens a control channel over ssh and moves file data over
-- parallel TCP streams. A sender walks the source files, announces them, and compares checksums; a
-- receiver opens, closes and reports them. libdtn, a C library, moves the bytes.
--
-- The parts and how they meet. On the sender, file workers sort out and open what the command line
-- names (`handle`), directory workers give them the entries of directories, and the opened files go
-- to `iterate_files` (src/escp/sender.rs), which announces them in the order of their numbers
-- (`announce`); when the data of a file has been sent, its number of blocks goes to the receiver
-- (`send_file_complete`). The receiver (src/escp/receiver.rs) puts announced files in a hash map and
-- a queue (`handle_file_spec`), opens them (`add_file`), closes those whose blocks are all written
-- (`close_file`), and reports their checksums (`send_file_completions`), which the sender compares
-- with its own (`handle_msg_from_receiver`). An error of libdtn on the receiver becomes a message
-- (`parse_error`, src/escp/logging.rs), which the sender prints before it exits (`show_list`). All
-- messages have a header of six bytes (`to_header`, src/escp.rs) and a FlatBuffers table as their
-- body.
--
-- The files. Header: `to_header` and `from_header` of src/escp.rs. Wire: the tables of
-- src/escp/file_spec.rs, session_init.rs and message.rs; Wire/Flat states what the code needs of the
-- flatbuffers crate, a parameter. Dest: `parse_dest` of src/escp/sender.rs. Human: `int_from_human`
-- of src/escp.rs. Time: `convert_time` of src/escp/sender.rs. Receiver/State, Entries, Opening,
-- Closing, Completions, Loop and Run: the variables of `escp_receiver`, its handling of a file list,
-- `add_file`, `close_file`, `send_file_completions` with `send_file_error`, a turn of the main loop
-- and runs of it, all of src/escp/receiver.rs; Receiver/Checksums: `cksum_worker` there. Sender/Ssh:
-- how `escp_sender` reaches the receiver, with the arguments of ssh. Sender/Rounds: the loop of
-- `iterate_files` over rounds of receiving, listening and announcing; Rounds/EndToEnd joins it to
-- the walk. Sender/Transfer: `escp_sender` from the established session on; Sender/Finish: its final
-- wait, and `file_check`. Sender/Finished: `fc_worker` of src/escp.rs. Sender/Sources: the part of
-- `iterate_files` that makes items of the command line and the file list. Sender/Check, Alerts,
-- Batch, Completions, Files, Walk and Workers: `handle_msg_from_receiver` and what it prints of the
-- receiver's errors, the queue of `iterate_files`, `send_file_complete`, what `iterate_file_worker`
-- does with an item, the steps of all workers with those of `iterate_dir_worker`, and the workers'
-- exit protocol, of src/escp/sender.rs. Walk/Found holds the abstract view of a walk: a tree, and
-- the files that it yields. Delivery: the sender's announcements as the receiver's loop handles
-- them. Logging: `parse_error`, `initialize_clog` and, in Logging/Start, `initialize_logging` of
-- src/escp/logging.rs. Session: the description of a session that `escp_sender` sends, what
-- `initialize_receiver` of src/escp/receiver.rs takes from it, and in Session/Reply the framing
-- (`read_stdin_or_mgmt`) and the reply with the port. Config: the options (`EScp_Args`), and the
-- block size and the other arguments that `start_escp` makes of them, in src/escp.rs;
-- Config/Machine: `load_yaml` there and what `start_escp` takes from the configuration file;
-- Config/Start: `start_escp` as a whole, with `do_escp`. Str/Paths: Rust's `Path` on byte lists. Str
-- and Base hold what Rust's library gives: strings, hash maps, signed numbers, sorting. The other
-- files are proofs, named for what they prove, and Tests modules.
--
-- How code becomes definitions. Mutable variables are fields of a record that an operation takes and
-- returns. A panic is a result of its own, or `none`. Calls of the file system and of libdtn are
-- logged as effects in their order, and answered by an argument (`Env`, `Stats`), which the theorems
-- leave open. A channel is the list of what its `recv_timeout` gives. Threads that share atomics are
-- a step relation. Text is a list of bytes. Unsigned 32- and 64-bit numbers are native ones, with
-- the wrap-around written out where the code may reach it; `as` casts are `as_u32`, `as_i64`.
--
-- Bounds and fuel. The loop around `open` of a file worker (`open_loop`) runs on fuel, the number of
-- rounds; Sender/Files/Patience shows when it is enough. The walk is a step relation without fuel;
-- Walk/Bounded counts its steps. The rounds of `iterate_files` are counted (`rounds`); one for each
-- answer of the channel is enough, which Rounds/Complete shows. `add_file` tries each file four
-- times because the code does, reports hold 4096 files and block counts 2601 entries at most because
-- the code stops there, and the other loops follow their lists.
--
-- Not modelled: the copying of messages, what zstd makes of them (whether they fit its buffers is a
-- parameter of Delivery and of the receiver's loop; the rounds of the sender go on as if they did),
-- the bounds of the sender's channels of items and of opened files, the wait of a file worker for a
-- slot of `file_addfile`, panics on paths that are no UTF-8, the tests of the flatbuffers crate's
-- Verifier, the time stamp of log lines, the text of the progress lines (which is floating-point
-- arithmetic), the opening of sockets, pauses, option parsing (clap), and libdtn itself.
-- src/escp/bindings.rs is generated from C headers. Each turn of the receiver's loop is modelled,
-- the pacing by `timeout` included, but not the time that passes.
pub mod Base
pub mod Str
pub mod Header
pub mod Dest
pub mod Human
pub mod Time
pub mod Wire
pub mod Receiver
pub mod Sender
pub mod Delivery
pub mod Session
pub mod Config
pub mod Logging
