-- ===== src/Lib.antt =====
-- A model of muzi, a C++ network library: event loops over epoll, TCP connections with buffers,
-- timers, and logging.
--
-- The parts and how they interact. A Channel (muzi/net/channel.h, channel.cc) holds the events that
-- are wanted and received for a file descriptor and calls the callbacks of its owner. An
-- EpollPoller (muzi/net/poller/epoll_poller.cc) keeps the channels of a loop and the kernel's
-- interest list in step. A TcpConnection owns a channel and keeps its bytes in two ChainBuffers
-- (muzi/net/chain_buffer.h). A TcpServer holds the connections it has accepted,
-- a TcpClient the one that its Connector has made. An EventLoop polls
-- its channels and runs the functors that other threads queue for it. A log line is written by a
-- LogStream into a FixedBuffer, and an AsyncOutputer collects the lines of all threads for the one
-- that writes them to the file.
--
-- Files. Prelude and its children: tests on numbers and lists that the other modules share.
-- ChainBuffer: the record of the blocks and positions and every operation on it under its name in
-- the source, spelt in lower case (RetriveAsString is retrive_as_string); Bytes has what memcpy
-- does to blocks, Invariant the invariant and the bytes held, Append, Retrive, Peek, Iterators and
-- Trim the operations, Vectors ReadFd, WriteFd and Append of another buffer (chain_buffer.cc) with
-- Scatter, Sockets and Pieces behind them, Queue the view as a queue of bytes, Examples the tests.
-- OldBuffer: the buffer that ChainBuffer has replaced (muzi/net/old_buffer.h, old_buffer.cc), with
-- its iterator; Iterators and Flat have positions and the bytes at them, Space and Growth the room,
-- Bytes the operations, Vectors WriteFd, Scatter and Sockets ReadFd; Replaced compares the buffers.
-- Channel: event masks, the channel and its dispatch. Poller: UpdateChannel, RemoveChannel and
-- Poll over a heap of channels; Poller/Kernel states what is relied on of epoll_ctl(2).
--
-- TcpConnection: the states, buffers and wanted events of a connection and its operations in the
-- loop's thread (muzi/net/tcp_connection.cc), with the calls that leave it as effects; Run has
-- sequences of operations, Stream and Accepted follow the bytes, Lifecycle the states, and Owner has
-- what the owner relies on.
-- TimerQueue: the timers of a loop (muzi/net/timer_queue.cc, timer.cc), with the C++ set and map as
-- lists, in Insert, Cancel, Expiry (GetExpired) and Restart (ResetTimer); the clock and what the
-- callbacks do are arguments. Times are microseconds and far from the end of 64 bits.
-- Connector: the client's attempts to connect (muzi/net/connector.cc); Sockets follows the
-- descriptors, Delay the time between attempts.
-- EventLoop: Loop(), QueueInLoop() and Quit() (muzi/net/event_loop.cc) as a step relation in which
-- the loop's thread and the other ones take turns at any place where the code does not hold the
-- lock; Queue follows the functors, Wakeup the eventfd, Quit the end of the loop.
-- ThreadPool: RunThread(), Run() and Stop() (muzi/base/thread_pool.cc) as such a relation, with the
-- number of threads at each place of the code; Queue has the notifications, Order the bound and
-- the order of the tasks, Stop the end. A waiting thread returns only when it is notified, unless an
-- action says otherwise.
-- FixedBuffer and LogStream: the buffer of a log line (muzi/base/fixed_buffer.h) and the text of
-- numbers (muzi/base/log_stream.h, log_stream.cc), in Decimal, Hex and Bounds.
-- AsyncOutputer: the log's double buffering (muzi/base/async_outputer.cc) as a relation of this
-- kind; Buffers and Progress show that its pointers are valid, Order follows the bytes, Stop and
-- Ending the end of the thread. The file is the list of the bytes that it gets.
-- Acceptor: the accept loop (muzi/net/acceptor.cc); Descriptors follows the descriptors.
-- LogFile: the log's file and its rolling (muzi/base/log_file.cc) over a store of files, in Rolling.
-- MemPool: a pool of blocks (muzi/net/mem_pool.cc) on addresses; Blocks has what it hands out.
-- TcpServer: the connections of a server and the functors queued for them (muzi/net/tcp_server.cc).
-- It uses the models of TcpConnection and of EventLoopThreadPool; Clients and Steps have what holds
-- of each connection, Removal the theorems.
-- TcpClient: a client (muzi/net/tcp_client.cc) as the actions of its loop, on top of the models of
-- Connector (whose Calls has what it relies on) and TcpConnection; what the user calls in a callback
-- is the next action. Current, Steps and Removal have
-- what holds behind each action, Safety and Reconnect the theorems.
-- EventLoopThread: the thread of a loop and its owner (muzi/net/event_loop_thread.cc) as a relation
-- of this kind, with the wait of Quit() (muzi/net/event_loop.cc). Runs has what always holds, Ends how
-- Stop() comes to its end, Stop where it does and where it does not.
-- EventLoopThreadPool: its start and the choice of a loop (muzi/net/event_loop_thread_pool.cc).
--
-- Bounds and fuel. The block size of a ChainBuffer is a parameter (buffer_size is the source's
-- 4096), as is that of an OldBuffer. Sizes are 64-bit: sums and differences of readable_bytes_ wrap, and the theorems ask that
-- the buffer stays below 2^64 bytes. A loop over `len` bytes gets fuel for len + 2 rounds: every
-- round but perhaps the first one of BackWard() takes a byte, and the theorems show that it ends.
-- The loops of ConvertIneger() and ConvertHex() recurse on the accessibility of the number.
--
-- Not modelled: the log's lines with their levels, which are a part of their own; wrappers of system calls, whose results are arguments here; calls of a connection, a connector or
-- a timer queue from threads other than the loop's; the failure of allocations, iterator arithmetic
-- past end() that no access follows. Assertions are taken to be enabled; a failing one gives
-- `none`.
pub mod Acceptor
pub mod AsyncOutputer
pub mod ChainBuffer
pub mod Channel
pub mod Connector
pub mod EventLoop
pub mod EventLoopThread
pub mod EventLoopThreadPool
pub mod FixedBuffer
pub mod LogFile
pub mod LogStream
pub mod MemPool
pub mod OldBuffer
pub mod Poller
pub mod Prelude
pub mod TcpClient
pub mod TcpConnection
pub mod TcpServer
pub mod ThreadPool
pub mod TimerQueue
