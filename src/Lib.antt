-- ===== src/Lib.antt =====
-- A model of xfer, a program that sends files over a TCP connection, and of what its parts promise.
--
-- A session: the sender collects a manifest of files, sends a session header of 32 bytes, waits for
-- an acknowledgement of 8 bytes, then sends a record and the payload of each file and an end marker.
-- The receiver checks the header, acknowledges, and writes each payload below an output directory.
--
-- - Base.antt: numbers, lists, Boolean tests and bits that the other files share.
-- - Crc.antt: src/common/crc32.cpp. `BuildTable` is `build_table`, a `Crc32` object is the record of
--   its register, and `Update`, `Final` and `Compute` are functions on it.
-- - Os.antt: the calls on sockets, files and `std::filesystem` that xfer makes and does not
--   implement. They are a record of functions on a world that the model knows nothing of. Os/Laws.antt
--   has the documented behaviour that theorems ask of them: `IsConnection` (TCP delivers a prefix,
--   in order, and SIGPIPE is ignored), `IsReliable` (no call fails), `IsDisk`, `IsRoomy` and `IsSource`; Os/Files.antt has
--   `IsReadable` and `IsSteady` for the files that are sent. Os/Sockets.antt has the calls that make
--   and end connections, and their law on the table of open descriptors; Os/Tidy.antt has what every
--   call opens and closes, and how that passes through a function. Os/Memory.antt is a small machine
--   that meets the laws, on which the examples run. A function that returns `bool` and stores in
--   `std::error_code& ec` is an `Action` (Os/Action.antt).
-- - Net.antt: src/net/socket.cpp, `Send`, `Recv`, `SendAll`, `RecvAll` and the Linux branch of
--   `SendFromFd`. Net/Mac.antt and Net/Portable.antt have its other branches, where the `sendfile` of
--   macOS is a parameter. Net/Lifetime.antt has `Connect`, `Bind`, `Listen`, `Accept`,
--   `SetNoDelay`, `Close` and the moves; Net/Lifetime/Reach.antt has the calls on one socket as a step relation.
--   Net/Exchange.antt and Net/Dialogue.antt compose steps that read and write.
-- - Wire.antt: src/transfer/protocol.cpp and include/xfer/protocol.h, every reader and writer of the
--   wire format, and the little-endian helpers in Wire/Words.antt.
-- - FsPath.antt: `std::filesystem::path` on POSIX as the bytes of the path, with `operator/`, the
--   iteration over the elements and `parent_path`. FsPath/Lexical.antt has the place that a path leads
--   to when `..` goes up and links are not followed.
-- - Receiver.antt: src/transfer/receiver.cpp, `ValidateAndJoin`, `ReceivePayloadToFile` and
--   `ReceiveStream`.
-- - Sender.antt: src/transfer/sender.cpp. Sender/Manifest.antt has `MakeRelPath` and `CollectFiles`,
--   Sender/Source.antt has `ResolveOnDisk`, `OpenForRead`, `CrcOfFd` and `SendFileBytes`, and
--   Sender.antt has `SendPaths` and `SendFiles`.
-- - Cli.antt: src/cli.cpp, `ArgStarts` and `Parse`; Cli/Integer.antt has `ParseInt`, and Cli/Run.antt
--   has `BindAndAccept`, `DialOut`, `RunSend`, `RunReceive` and, of src/main.cpp, `main`; the modules
--   below it say which connections are made, and what `main` leaves behind.
-- - Sender/Session.antt and Receiver/Session.antt: what a whole session sends and stores.
--   Delivery.antt: both sides together.
-- - The modules named Tidy go through Net, Wire, Receiver, Sender and Cli/Run and follow the table of
--   open descriptors and streams.
-- - The modules named Halting show that the functions of a sender come back.
-- - Progress.antt: src/common/progress.cpp, the progress bar, over a clock and a terminal.
-- - Logging.antt: src/common/logging.cpp, log statements.
--
-- A loop whose rounds depend on what a call answers runs on fuel: the bytes that are missing, since
-- each round that goes on takes one at least. Only the calls in `SendFromFd` have no such bound, since
-- an interrupted one is made again: their number is an argument of the sender. `stuck` marks a call
-- that does not come back: the end of the fuel, an exception that nothing catches, or a signal. `++it`
-- on a directory and `current_path()` throw, and are calls that may give nothing. A write to a
-- connection that the peer has closed comes with SIGPIPE, which ends the program unless it was started
-- with the signal ignored: that is `ignores_sigpipe`, and a law of `IsConnection`, since the code does
-- not see to it itself. What is said below of `SendAll`, `RecvAll` and the receiver includes that
-- `stuck` is not reached, for the receiver in a program that runs in one directory all the time.
-- A length that is cast to `int` is below 2 ^ 31 in theorems. A `std::uint64_t` counter
-- wraps around at 2 ^ 64. `std::sort` leaves the order of equal paths open; here it is that of an
-- insertion sort.
--
-- Not modelled: the formatting of sizes and durations, and the stopwatch, which only print and work in
-- floating point; what is different on Windows; the text of the help; other
-- signals, and the exceptions of an allocation that fails. The transfers are modelled
-- without their log lines and progress bars, which are modelled on their own.
pub mod Base
pub mod Cli
pub mod Crc
pub mod Delivery
pub mod FsPath
pub mod Logging
pub mod Net
pub mod Os
pub mod Progress
pub mod Receiver
pub mod Sender
pub mod Wire
