-- ===== src/Lib.antt =====
-- The Lotus network library: the reactor, its buffers, timers and connections.
--
-- One thread runs an EventLoop, which waits in Epoll::poll, lets each active Channel call its
-- owner's callbacks and then runs the functors that other threads have queued. A TimerQueue keeps
-- the loop's timers in a binary heap over one timerfd. A TcpConnection reads into one Buffer and
-- sends by way of another; a Connector sets up a client's connection, with retries; and an
-- EventLoopThreadPool deals new connections out to several loops. The sources stand under
-- lotus_project/lotus/net/.
--
-- * Buffer (Buffer.h, Buffer.cc): the vector is a list, and the two indices and the arithmetic are
--   those of size_t, with its wrap-around. Buffer/Bytes and Buffer/Ints hold the integers in
--   network byte order, Buffer/Fd holds readFd. The constructor is `make`, `append` and `retrieve`
--   and the others keep their names; Valid states the layout of the header's drawing, and
--   `contents` is the abstract value, the readable bytes.
-- * Timers (Timer.h, Timer.cc, TimerQueue.h, TimerQueue.cc): a Timer pointer is a number and the
--   memory a function from numbers. Timers/Heap has SwapHeap, UpHeap and DownHeap, and Timers/Queue
--   has insert, removeTimer, cancelInLoop, getExpired, reset and handleRead. The abstract queue is
--   `active`, which maps a timer to its expiration.
-- * Channels (Channel.h, Channel.cc, Epoll.h, Epoll.cc): the events, the kernel's interest list, and
--   in Channels/Dispatch the calls of the callbacks.
-- * Connection (TcpConnection.h, TcpConnection.cc): the handlers of one connection over the models of
--   Buffer and Channels. The bytes that the kernel has taken and the effects are noted in the state.
-- * Connector (Connector.h, Connector.cc): the state machine of the client's side, with the sockets
--   that it creates, closes and hands on.
-- * Loop (EventLoop.h, EventLoop.cc): the pending functors, the eventfd's counter, and in Loop/Wakeup
--   the rounds of `loop` interleaved with the other threads, from before the call of `loop` on.
-- * LoopPool (EventLoopThreadPool.h, EventLoopThreadPool.cc): the choice of a loop.
-- * ThreadPool (Threadpool.h, Threadpool.cc): the queue of tasks and the threads at its two condition
--   variables; ThreadPool/Waiting has the steps of all the threads.
-- * Acceptor (Acceptor.h, Acceptor.cc): the listening socket and its spare descriptor.
-- * InetAddress (InetAddress.h, InetAddress.cc): addresses, with the texts as lists of bytes;
--   Base/Decimal prints numbers.
-- * EventLoopThread (EventLoopThread.h, EventLoopThread.cc): the new thread and the one that starts
--   it, whose steps are in EventLoopThread/Handover.
-- * TcpServer (TcpServer.h, TcpServer.cc): the server over the models of Acceptor and LoopPool, with
--   its map of connections by name (Base/Dict) and what it gives to the loops. TcpServer/Events has
--   sequences of connections that open and close.
-- * TcpClient (TcpClient.h, TcpClient.cc): the client over the model of Connector; TcpClient/Sessions
--   has its steps.
-- * Udp (UdpServer.h, UdpServer.cc, UdpClient.h, UdpClient.cc): the server and the client of
--   datagrams.
-- * Sudoku (lotus_project/examples/sudoku/server_basic.cc): an example's message callback over the
--   model of Buffer and its readFd, for any function that answers puzzles. Sudoku/Rounds has one
--   round of its loop, Sudoku/Served one call of TcpConnection::handleRead, and Sudoku/Stream the
--   parts of a stream that arrive one after the other.
-- * Solver (lotus_project/examples/sudoku/sudoku.cc): the links of the nodes of its matrix, each field
--   a function of the node's number. Solver/Links has single nodes, Solver/Loops and Solver/Cover the
--   loops of `cover` and `uncover`, Solver/Restore the two of them together, and Solver/Choice the
--   choice of a column. Solver/Grid says what the matrix is like at any time of the search, with the
--   rings of Solver/Rings, and Solver/Search has `solve`: in Search/Others the columns of a row's
--   other nodes, in Search/Fill the board, in Search/Exact and Search/Solved what a solution is, and
--   in Search/Rows and Search/Solve the loop and the recursion. Solver/Build has the constructor of
--   SudokuSolver and solveSudoku: the assertions in Build/Values and Build/Rows, the columns' ring in
--   Build/Flat and Build/Columned, the rings of their rows in Build/Vertical, the rows of four nodes
--   in Build/Quads, Build/Rowed, Build/Growing and Build/Adding, the matrix as the search needs it in
--   Build/Turns, Build/Matrix and Build/Ready, and the whole of solveSudoku in Build/Works and
--   Build/Answer.
--
-- An option's `none` stands for a failed assertion, an exception, or an access out of bounds. The
-- results of system calls, readings of the clock, and the users' callbacks are arguments. UpHeap,
-- DownHeap and getExpired are loops on fuel: the index, the heap's size and the heap's size, each
-- with one added; UpHeap lowers the index, DownHeap raises it and getExpired shortens the heap, so
-- this is enough. The loop of the sudoku server's onMessage takes the readable bytes and one, since a
-- round retrieves a byte or is the last one. `cover` and `uncover` take a number above that of the rows
-- and of the nodes of a row, and get_min_column one above that of the columns. `solve` takes such a
-- number, and a second one for the depth of the recursion, which is above the number of the columns
-- since each call has at least one column less; solveSudoku's matrix has at most 324 columns, and
-- kMaxNodes is above its rows.
--
-- Not modelled: the wrappers of system calls in Sockets, logging, and the other examples and tests. Most
-- destructors, the setters of callbacks, and reads of a connection's status from other threads are
-- left out as well.
pub mod Base
pub mod InetAddress
pub mod Acceptor
pub mod Buffer
pub mod Timers
pub mod Channels
pub mod Connection
pub mod Connector
pub mod Loop
pub mod LoopPool
pub mod EventLoopThread
pub mod TcpServer
pub mod TcpClient
pub mod Udp
pub mod ThreadPool
pub mod Sudoku
pub mod Solver
