-- ===== src/Lib.antt =====
-- win32-experiments: components of a collection of Windows programs.
--
-- Each program of the repository stands in a directory below src/, and they share no state. The
-- development takes the parts in which a program does work of its own between calls of Windows, one
-- module each. A call of Windows, Winsock, WinHTTP or the C library is a parameter: an argument of
-- the functions that use it, or a record of calls over a state. What the code relies on is a named
-- hypothesis.
--
--   Common - shared names, lists and integers over the native numbers, buffers that calls fill.
--   Framing - src/OldSspiSample/main.cpp, SendBytes, ReceiveBytes, SendMsg and ReceiveMsg: messages with
--   a size in front over a stream socket that may send and receive fewer bytes than it is asked to.
--   HexDump - PrintHexDump of the same file.
--   Sspi - the rest of the same file and src/OldSspiSampleServer/main.cpp: the handshake of both ends by
--   tokens, the sealed messages, and both programs. The messages of Framing are an interface, Link.
--   Tls - src/SspiClientServer/SspiExample-Client2.ixx, a TLS client: its records, its handshake, its sockets.
--   SecureSocket - src/SecureSocket/main.cpp, a TLS socket that reads from its own buffer of decrypted data.
--   SharedMemory - src/ClientServerLib, arrays in a file mapping under a mutex of several processes.
--   XSocket - src/XSocket, a linked list of buffers, the transport over it, and two ends of a WebSocket in
--   one process that talk through the transport. To the WebSocket ends the transport is an interface,
--   Channel; the theorems of XSocket.Transport show what the list gives behind it.
--   BoundedBuffer - src/ConditionVariables/ConditionVariables.cpp, a ring of ten items between threads.
--   What a thread does under the lock is one turn, and a run is any list of turns.
--   WebSocket - src/WebSocketProto, the class WinHttpWebSocket and the function Replace. Methods return or
--   throw, and both leave an object.
--   Pipe - src/PipeLib/Export/pipelib.ixx, messages through a named pipe, with and without a header.
--   SmallPipes - src/SmallPipes/main.cpp, blocking and overlapped reads and writes on a pipe, and a read
--   that is finished later. It shares the answers of ReadFile with Pipe.
--   Coroutine - src/WinsockCoroutine/main.cpp, an event loop on a completion port that drives coroutines,
--   and the echo server and its client over it. A coroutine is the point at which it is suspended.
--   MessageQueue - src/Win32Threads/thread-queue.ixx, threads that are driven by messages, and the thread
--   that posts them. Apc - src/Win32Threads/threads-apc.ixx, namespace APC2, a thread that executes what
--   is queued to it. In both the steps of the two threads come in any order.
--   Com - src/basic-com, the objects of a COM server and the references that a client holds to them.
--   Layout - src/layout-demo/main.cpp, the anchor layout and the box layout.
--   Progress - src/progress-bar, the window with a progress bar and its status.
--   FileLock - src/FileLockMutex/filelockmutex-filesystemlock.ixx, a lock between processes by a file.
--   Service - src/Win32Service/main.cpp, the reports of a service, each as one step, and how it stops.
--
-- Below each module the proofs stand in modules named for what they prove, and Examples has runs and
-- concrete instances. A loop takes fuel and gives `none`, or a constructor `unfinished` or `endless`,
-- when it runs out: where a theorem says that a
-- loop ends, it says how much fuel is enough, which is the number of rounds at most, one for each byte
-- or each call. Sizes of 32 bits wrap around at 2^32. A signed `int` of a layout is an integer, since
-- C++ leaves an overflow undefined. A handle is a number and zero is the null handle.
--
-- Not modelled: output, random waits, the texts of errors, what Schannel and the security packages
-- compute, memory that is freed at the end of a program, the creation of windows, the registration in
-- the registry, and the samples that only call the system and print what it answers.
pub mod Common
pub mod Framing
pub mod BoundedBuffer
pub mod WebSocket
pub mod Pipe
pub mod Com
pub mod Layout
pub mod HexDump
pub mod Service
pub mod Progress
pub mod FileLock
pub mod XSocket
pub mod Sspi
pub mod Tls
pub mod SecureSocket
pub mod SharedMemory
pub mod Coroutine
pub mod SmallPipes
pub mod MessageQueue
pub mod Apc
