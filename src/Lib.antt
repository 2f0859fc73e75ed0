-- ===== src/Lib.antt =====
-- PiVision: a program that finds a camera server in the local network, collects its color frames,
-- computes grayscale images of them and serves those to its clients. There are two of it.
--
-- The one in C has one thread, which runs a list of callbacks in turn; the modules keep their state in
-- statics and call each other.
--
-- * C/src/PiVisScheduler.c is Scheduler.antt: SCHED_init, SCHED_registerCallback and SCHED_run are
--   init, register_callback and run. The entries stand in a store by address, since the list runs
--   through entries that the modules own.
-- * C/src/PiVisServer.c is Server.antt (the poll of discovery requests and of new connections,
--   SERVER_send, SERVER_receive) and Server/Setup.antt (SERVER_init, SERVER_publishService and the
--   sockets it makes). The contexts of the services stand in a store by address.
-- * C/src/PiVisClient.c is Client.antt: a state machine with a table of functions. CLIENT_receive
--   gives the waiting frame to
-- * C/src/PiVisImageProvider.c, which is ImageProvider.antt.
-- * C/src/PiVisImageDataTL.c is ImageDataTl.antt: images go to the client of its service, one for
--   each acknowledgement.
-- * C/src/PiVisImageNormalizerAlgo.c and C/src/PiVisImageDiffAlgo.c are ImageNormalizerAlgo.antt and
--   ImageDiffAlgo.antt: from a color image to a grayscale one.
-- * C/src/PiVisAlgoCtrl.c is AlgoCtrl.antt: a frame of the image provider becomes the input of a job
--   of the thread pool, and the image that a job leaves is offered to the image service. A worker's
--   execution of a job is one step, taken at any time between the steps of the scheduler's thread.
--   AlgoCtrl/Pipeline.antt follows a frame to the client of the image service.
-- * C/PPMCreator/PPMCreator.c is PpmCreator.antt: an image as a PPM file. C/PPMCreator/main.c, a
--   program of its own that writes a test image, is PpmCreator/TestImage.antt; the calls of the C
--   library on files are its parameter.
-- * C/src/PiVisControl.c and C/src/PiVisDiag.c are Control.antt and Diag.antt, two small services.
-- * C/src/main.c up to SCHED_run is Main.antt, with DIAG_init, CTRL_init and the registrations and
--   publications of the other initializations. Main/Loop.antt is the whole of it: the loop of
--   SCHED_run over the statics of all modules, where each toExecute->run() is call_run, behind as
--   many jobs as the workers execute before it. That number, for each call, is a parameter.
-- * C/inc/PiVisConstants.h is Constants.antt. Chain.antt has the linked lists, Sockets.antt the calls
--   of the operating system, Decimal.antt the conversions of the C library, and Base.antt what all
--   modules share. The files below a component hold its theorems, and its Tests the examples.
--
-- The one in C++ is the tree below Cpp.antt: components that react to the events of a job dispatcher,
-- and the jobs that they give to it. In C++/inc and C++/src,
--
-- * pivision_events.h, pivision_services.h and pivision_threadmodel.h are Cpp/Events.antt: the buffers
--   and events, and the calls of the dispatcher. A handler gives its calls back, in their order.
-- * pivision_servicehandler.cpp is Cpp/ServiceHandler.antt: which services there are. It asks
-- * pivision_ethterm.cpp, Cpp/EthTerm.antt, for services of other hosts, and to make its own known.
--   That starts the jobs of
-- * pivision_ethtermconnectservice.cpp, Cpp/ConnectService.antt, which looks for a service,
-- * pivision_ethtermservicelistener.cpp, Cpp/ServiceListener.antt, which lets itself be found, and
-- * pivision_ethtermconnection.cpp, Cpp/Connection.antt, one for each connection: messages with their
--   sizes in front, acknowledgements and heartbeats. Receive, Send, Execute and HandleEvent are
--   receive, send, execute and handle_event; Cpp/Connection/Threads.antt has the steps of its two
--   threads in any order.
-- * pivision_framecoord.cpp is Cpp/FrameCoord.antt: the camera's frames become those of the color
--   image service. pivision_grayscaleimage.cpp and pivision_grayscaleimagejob.cpp, Cpp/GrayscaleImage.antt
--   and Cpp/GrayscaleImageJob.antt, make grayscale images of them; Cpp/Pipeline.antt puts these and a
--   connection together.
-- * pivision_uniqueid.cpp is Cpp/UniqueId.antt, and main/full/main.cpp, main/bw/main.cpp and
--   main/color/main.cpp are Cpp/Program.antt, with the steps that can follow.
--
-- A module's statics are a record, and a function takes it and gives it back. A result is a Run:
-- a value, exit(1), a fault (undefined behaviour: a write or read outside an array, a NULL or
-- dangling pointer, a division by zero) or the end of the fuel. The system calls are a
-- parameter, a record of functions on a state of the world with what POSIX says of their
-- results; Sockets/Scripted.antt and Sockets/Streams.antt are two systems of this kind, for the
-- examples. `unsigned int` arithmetic wraps at 2 ^ 32 and bytes at 2 ^ 8; memory is
-- little-endian; counts and sizes, which stay below 2 ^ 31, are natural numbers. The sizes of
-- images are parameters, of which the theorems say what they must satisfy; the program's are 640
-- * 480 pixels.
--
-- The walks over linked lists have fuel, and one more than the length of the list is enough.
-- The loop of SERVER_send has fuel for its calls of send, and one more than the bytes to be
-- sent is enough where every call takes a byte. SCHED_run does not end: its fuel counts rounds.
-- In Main/Loop.antt one fuel is for all walks and for the calls of send: 8 more than the pixels
-- is enough, but for a call that sends to a socket which takes nothing. In a connection,
-- Receive needs eleven attempts for each byte and eleven more, and Send one call for each byte
-- on a socket that makes progress, and twelve on a lost one; the search for a service needs six
-- rounds. A wait for a condition variable takes the events that are delivered during it from a
-- list, and a list without one that notifies is the end of the fuel. The loop of Execute of a
-- connection has fuel for its rounds, that of a listener a list of the events before each
-- round.
--
-- Not modelled: the thread pool, a copy of another project's library, whose calls are a
-- parameter with laws; messages on the terminal of the C and the C++ program, and the sleep
-- between two discovery messages; in the C program, a job whose steps interleave with those of a
-- call. Of the C++ program, the job dispatcher, a submodule, so that the order in which events
-- are delivered and jobs are run is not fixed; the interleavings of the two threads of a
-- connection within one reception or one event; a wait of the search that ends without a
-- notification, or misses one that comes before it; the signal handler around send and recv. The
-- programs in Java and Python.
pub mod AlgoCtrl
pub mod Base
pub mod Chain
pub mod Client
pub mod Constants
pub mod Control
pub mod Cpp
pub mod Decimal
pub mod Diag
pub mod ImageDataTl
pub mod ImageDiffAlgo
pub mod ImageNormalizerAlgo
pub mod ImageProvider
pub mod Main
pub mod PpmCreator
pub mod Scheduler
pub mod Server
pub mod Sockets
