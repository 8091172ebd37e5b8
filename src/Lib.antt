-- ===== src/Lib.antt =====
-- The audio capture manager of RDK: a queue manager takes audio from the capture library of the
-- device and hands it to clients; the music id client keeps the last seconds and delivers clips, the
-- IP output client streams to a socket, and a session manager offers both over IARM.
--
-- The parts and their files:
-- Prelude: shared names, Boolean tests on native numbers, lists, `Result` with the faults that C++
--   code can run into (division by zero, access outside a block, access to freed memory), integers.
-- Audio: the formats and frequencies, `get_individual_audio_parameters`, `calculate_data_rate` and
--   `get_suffix` of src/audio_capture_manager.cpp.
-- Buffer: src/audio_buffer.cpp, the reference-counted buffers, as cells of a heap. Addresses are
--   never used again, so that a stale pointer is a fault.
-- QMgr: the class q_mgr of src/audio_capture_manager.cpp. QMgr holds the queues and `add_data`,
--   QMgr/Clients the registration of clients, the device and the settings, QMgr/Delivery
--   `process_data` over the virtual method `data_callback`, and QMgr/Thread the processing thread as
--   a step relation with the capture callback and the calls of clients interleaved.
--   QMgr/BaseClient is the callback of the class audio_capture_client, QMgr/Managed the rest of that
--   class, QMgr/Destructor the destructor with the thread it waits for, QMgr/Monitor the data monitor
--   thread. The other files prove.
-- Converter: src/audio_converter.cpp. Converter has the sinks and the choice of the conversion,
--   Converter/Loops the loops; Converter/Decimate says what they are to write.
-- Music: the class music_id_client of src/music_id.cpp: Music has its queue, limit and requests,
--   Music/Wav the header of a WAV file, Music/Clips the clips that are cut from the queue and the
--   rounds of the worker thread, Music/Sending the delivery to a connection of the socket adaptor,
--   Music/Creation the constructor and Music/Ending the destructor; the other files prove.
-- Socket: the class socket_adaptor of src/socket_adaptor.cpp: Socket has its connection, Socket/Worker
--   its worker thread, over a callback that acts on the state of the owner; the other files prove.
-- IpOut: the class ip_out_client of src/ip_out.cpp, and IpOut/Worker its worker thread.
-- Shutdown: `stop_listening` of src/socket_adaptor.cpp and `close_output` of src/ip_out.cpp as steps
--   of the closing thread between those of the worker thread, over the mutex of the object.
-- Sessions: the class acm_session_mgr of src/acm_session_mgr.cpp: Sessions has the sessions and the
--   handlers that open, close, start and stop them, Sessions/Props the translation of formats and
--   frequencies, Sessions/Handlers the messages for audio properties and the precapture duration,
--   Sessions/Samples those that ask for a sample and for output properties.
-- Service: a queue manager with a music id client and IP output clients together.
-- Daemon: the sessions of src/acm_session_mgr.cpp with the objects of the clients they create and the
--   buffers on the heap, as one state of the process. Daemon/Messages has the handlers on it,
--   Daemon/Rounds `process_data` over the objects, Daemon/Bus the registration of the handlers with
--   IARM; Daemon/Valid says when a process is in order, Daemon/Launch that it starts so, and the
--   other files prove.
-- IarmInterface: the interface of src/acm_iarm_interface.cpp, from before the sessions.
--
-- How they interact: `add_data` puts a new buffer into the incoming queue; the processing thread
-- swaps the queues, sets the reference count of each buffer to the number of clients and calls each
-- client. QMgr/Delivery states as a record of laws what a class of clients owes: each callback takes
-- over one reference. QMgr/BaseClient, Music/Callback, IpOut/Contract and Service fill that record.
-- The converter reads the queue of a client without changing it.
--
-- How the model is made: a method takes the object and returns it changed; what stands between a lock
-- and its unlock is one step. `unsigned int` wraps by `% 2 ^ 32`; an `int` that may fall below 0 is
-- an integer. A session id is an `int`, kept as its 32 bits; the theorems on ids count the sessions
-- opened, so that the counter does not overflow. The capture library is a parameter: the results of its
-- calls, and whether the padding of two structures that `memcmp` compares is equal (CaptureLibrary in
-- Audio). The queue manager does not look at whether RMF_AudioCapture_Start succeeded; the model keeps the
-- settings of the last start.
-- The loops over lists recurse on the list. The loops of the converter take fuel, one more than the
-- bytes of the buffer, of which each round takes one or more; with buffers of whole frames, the
-- theorems show that it is enough. Buffers are smaller than 2 ^ 31 bytes, where the source converts
-- their size to an `int`.
--
-- The system calls on sockets, pipes and files are parameters too: their results are arguments, and
-- the descriptors that are open are recorded beside the fields of the object. A run of the worker
-- thread is over a list of the returns from `select`; `open_output` tries six paths and
-- `start_listening` two, as the source says, so that these loops need no fuel.
--
-- Not modelled: the capture of audio and the rounds of the worker threads as events of Daemon, which
-- has the messages, and the rounds of the processing thread over captured buffers, apart; logging; the
-- start of the process in src/acm_main.cpp, which starts the session manager and waits. IARM itself
-- is a parameter: a registry in Daemon/Bus, and results in IarmInterface.
pub mod Prelude
pub mod Audio
pub mod Buffer
pub mod QMgr
pub mod Converter
pub mod Music
pub mod Sessions
pub mod Socket
pub mod Shutdown
pub mod IpOut
pub mod Service
pub mod Daemon
pub mod IarmInterface
