-- ===== src/Lib.antt =====
-- kvmshare: one keyboard and mouse for several machines. This library models the deterministic core
-- of the Rust program, the wire protocol (crates/protocol), the session logic and the state of server
-- and client around it (crates/core), and proves what it promises.
--
-- How the parts interact. A server and its clients exchange frames over TCP (`Protocol`) and motion
-- over UDP (`Udp`). The server keeps one session (`Session`): the cursor, the layout of all screens
-- (`Layout`) and the shortcut engine (`Actions`). Input events and position reports go in, actions
-- for the server's threads come out. The server (`Server`) turns them into messages and into calls of
-- the local machine, and admits and drops clients; a client (`Client`) steers its own cursor after
-- the motion that it receives (`Pointer`).
--
-- Which file models what:
--   Prelude/Int, Prelude/I32   i32 with its wrap-around (a release build); u8 to u64 are numbers
--   Prelude/Run                a result or a panic
--   Prelude/Clock              Instant and Duration in nanoseconds; now_ms is crates/core/src/time.rs
--   Protocol/Ids               crates/protocol/src/id.rs, lib.rs
--   Protocol/Wire              crates/protocol/src/wire.rs: WriteBuf is the bytes written, ReadBuf the
--                              bytes with a position; a getter returns a value and the next buffer
--   Protocol/Geometry          crates/protocol/src/message/geometry.rs; an f32 is its bit pattern
--   Protocol/Frame             crates/protocol/src/frame.rs; a `Read` is the list of what its calls
--                              deliver
--   Protocol/Message           crates/protocol/src/message/mod.rs
--   Udp                        crates/core/src/udp.rs
--   Transport                  crates/core/src/transport.rs: recv and try_decode; a connection is the
--                              read buffer and what its reads return
--   Layout                     crates/core/src/layout.rs: Ray is `neighbor`, Normalize `normalized`
--   Actions                    crates/core/src/actions.rs: Engine is `ActionEngine`
--   Session                    crates/core/src/session/mod.rs, motion.rs, boundary.rs, and
--                              crates/core/src/input.rs: Boundary, State (the struct and its setters),
--                              Crossing (switch_out, cross_from_remote, enter_screen), Motion, Beacon,
--                              Events (on_local_event and the shortcuts), Clients
--                              (History serves a sequence of calls, as the server's loop does; Sound,
--                              Invariant, Held, Entry, Reports, Keys, Admit and Adopted hold the
--                              proofs, on top of Placed, Loops, LocalHandlers, RemoteHandlers, Told,
--                              Park and Pushed)
--   Prelude/Maps               HashMap with numbers for keys, as a list of pairs
--   Pointer                    crates/core/src/motion: Gain is gain.rs, Pending pending.rs, Follower
--                              follower.rs, Probe probe.rs (Inside holds a proof)
--   Server                     crates/core/src/server: World is `Server` and `ClientCtx` with their
--                              queues, Apply actions.rs, Registry, Handshake and Inbound client.rs,
--                              Datagrams udp.rs, Controls and Start mod.rs, Policy mod.rs and
--                              crates/app/src/config/ids.rs; the supervisor of liveness.rs is in
--                              Controls. Reach lets the threads take turns on the shared state. Rest
--                              and Coherent say what has to agree; Drops, Leaves, Departures, Desks,
--                              Arrivals, Turns and Orders prove that it does, and Served, Watchdog,
--                              Admission, Spoof, Superseded, Races and IdLists hold the results.
--   Keys                       crates/platform/src/keys.rs (Names holds a proof)
--   Client                     crates/core/src/client: Shared is shared.rs, Dispatch dispatch.rs and
--                              apply_motion_frame, Threads the rounds of threads.rs, Session the loop of
--                              mod.rs and the supervisor (View, Control, Queue and Ends hold the
--                              proofs)
--   Tests                      runs on concrete values
-- A method on `&mut self` is a function that returns the new state. Functions keep their names in the
-- source; a codec's name carries its type (`encode_rect`).
--
-- Bounds. Loops run on the list they walk over. `normalized` runs its eight passes as the source does;
-- the two loops of a pass run on the number of screens. The search for a free screen id runs on the
-- 255 ids, the one for the next screen on the length of the list of ids. No fuel is otherwise used.
--
-- Parameters. f64 arithmetic is the record `Floats` of Session/State. The time of a call is an
-- argument, read once for the whole call. In Session, a field of booleans stands for the wall mask.
-- The calls of the platform's Engine, Injector and clipboard are lists in the state; what the Injector
-- answers is an argument.
--
-- Threads. A turn of Reach is a whole handler, as if it held all its locks; the end of a connection is
-- two turns, its look at the registration and the rest. Handlers that interleave more finely are left
-- out.
--
-- Not modelled: the sockets, the accept loop, the client's connection, the start of threads and the
-- sync thread, the platform back ends (crates/platform, except keys.rs), most of the configuration and
-- the binaries (crates/app), the log (crates/log) and the user interface (gui). Most of it is system
-- calls.
-- swap_layout, admit_client and on_client_removed are no inputs of History, as normalized positions
-- may leave the range of i32.
pub mod Prelude
pub mod Protocol
pub mod Udp
pub mod Transport
pub mod Layout
pub mod Actions
pub mod Session
pub mod Pointer
pub mod Client
pub mod Server
pub mod Keys
mod Tests
