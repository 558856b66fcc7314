-- ===== src/Lib.antt =====
-- SchoolSystem is a client and a server that keep the students, classes and courses of a school in a
-- MySQL database. The client's window (SchoolSystem/) makes SQL statements and sends them over a
-- reliable transport of its own, on UDP (TcpSocketDll/). The server (SchoolSystemServer/) selects a
-- client with data, reads its statement, and hands it to a thread pool, whose workers execute it
-- through a wrapper of MySQL's client library (MysqlDll/) and send the answer back.
--
-- Files:
--   Base: the library's names, 32-bit integers, bytes of an int, C strings, lemmas on lists.
--   Tcp/ByteStream (TcpSocketDll/CByteStream.cpp), Tcp/Packet, Tcp/Address and Tcp/Conn
--     (TcpSocketDll/CTcpSocket.h): bytes, packets, Compare, and the map of connections.
--   Tcp/Receive (CTcpSocket.cpp, RecvThreadProc, the case DATA): reassembly. Receive/Index is the
--     abstract machine on packet numbers, Receive/Refine relates on_data to it.
--   Tcp/Socket (CTcpSocket.cpp): Send is send, Recv is recv, a turn of SendThreadProc is resend, a turn
--     of RecvThreadProc is on_packet. Tcp/Server (CTcpServer.cpp): Listen, Select (one look of it is
--     poll), UnSelect. Tcp/Client (CTcpClient.cpp): Connect, Send, Recv. Tcp/System: their
--     interleavings. Socket/Batches has runs of packets, Socket/Reliable a call of Send up to the
--     other side, Socket/Outbound and System/Bounds what goes out, Socket/Taken and System/Exclusive
--     the clients that are being served.
--   Tcp/Channel (CTcpSocket.cpp on both sides): two sockets, one that sends and one that receives, with
--     a network between them. Channel/Lists has the send list by the numbers of its packets, Growth
--     streams that grow, Flow what the two sides and the network have in common, Steps, Kept and
--     Reached that every step keeps it, Elsewhere what the threads do besides, Guarantees and Progress
--     what the callers may rely on, Connected how a channel begins (Connect, ESTABLISH_1).
--   Tcp/Lock (CLock.cpp, CTcpSocket.cpp): m_sendListLock, and the turns that stand under it, over a
--     parameter for the system's critical section. Tcp/InitSocketLib (CInitSocketLib.cpp): the start
--     and the end of Windows sockets.
--   ThreadPool (SchoolSystemServer/CThreadPool.cpp): AddTask is submit and then check, a turn of
--     ThreadProc is turn, the destructor is signal_stop and then drop_pool; ThreadPool/Threads has the
--     interleavings, Counters and Invariant what its counters mean, Shutdown the end.
--   Mysql (MysqlDll/CMysql.cpp): Init and Query, over a parameter for the client library.
--   Server (SchoolSystemServer/CServer.cpp): Tables (Init, CreateTables), Requests (how a statement is
--     read; SendSql), Sending (the packets that these become), Results
--     (SendResByteAry), Tasks (CSqlTask), Loop (main and the loop of CServer's constructor, a turn of
--     which is main_turn), Arrival (from SendSql to the server's stream), Threads (the main thread, the
--     workers in CSqlTask::Execute and the threads of the socket, in any interleaving of their turns;
--     Threads/Parts takes these apart, Requests and Clients are about the clients, Places and
--     Ownership about the tasks that they share, Executions about the turns of one worker).
--   Dialog (SchoolSystem/SchoolSystemDlg.cpp): ListCtrl (what is used of MFC's CListCtrl), Show
--     (ShowList), Statements and Edit (the buttons' statements, with a parameter for MySQL's reader of
--     literals, and the list after an answer), Inputs
--     (the four dialogs, CStudentDlg.cpp, CCourseDlg.cpp, CClassDlg.cpp and CSelectDlg.cpp, over a
--     parameter for MFC's exchange with edit controls), Window (the handlers as a whole), Arrival
--     (from SendResByteAry to ShowList).
--   Tests: concrete inputs.
--
-- An int is its bit pattern, a number below 2 ^ 32; sums wrap, and comparisons read the sign. What C++
-- leaves undefined (a read behind a buffer, front of an empty queue) is a value of its own: none, or
-- undefined. A wait is a value too, so that a step is what a thread does between two waits, or under
-- one lock. In ShowList the loops take fuel; each round goes on by a byte at least, so that the number
-- of bytes left, which is the fuel given, is enough when there is a column.
--
-- A handler of the window is given what the threads of the socket do between its statement and the
-- answer, as a function on the socket. In Tcp/Channel a datagram with data or an
-- acknowledgement may come any number of times, or never, and in any order; the sender sends to one
-- receiver only, its first packet does not come once more, and its numbers stay below 2 ^ 31. A step
-- of Server/Threads is one turn of one thread: the main thread up to its next wait, a worker one call
-- of Query, Send or UnSelect, a thread of the socket one datagram or one look at the send list.
--
-- Not modelled: handles and error messages themselves, painting and icons, the start of the MFC
-- application, and MySQL's library, of which only the calls are named. Query with the rows of its
-- result is one step of a worker: what happens when two workers are in MySQL's library at once, which
-- nothing in the program excludes, is not modelled. Time is a number that the steps are given.
pub mod Base
pub mod Tcp
pub mod ThreadPool
pub mod Mysql
pub mod Server
pub mod Dialog
pub mod Tests
