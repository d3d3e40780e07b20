-- ===== src/Lib.antt =====
-- A journal node: the server that keeps the edit log of an HDFS name node on disk, in C++.
--
-- A writer asks the journal for a new epoch, starts a segment of the log, sends batches of
-- transactions to it and finalizes it. A later writer fences the earlier one by a higher epoch and
-- recovers the segment that was left open: it asks each journal what it has (`prepareRecovery`),
-- and has them accept one version of it (`acceptRecovery`).
--
-- The parts, and the files that model them:
-- * Journal (src/Journal.cpp, src/Journal.h): Journal/State.antt has the fields as a record;
--   Journal/Epochs.antt the checks of a request, Journal/Scanning.antt `newEpoch` and
--   `getSegmentInfo`, Journal/Segments.antt `startLogSegment`, `journal` and `finalizeLogSegment`,
--   Journal/Recovery.antt the recovery, Journal/Manifest.antt `getEditLogManifest`,
--   Journal/Opening.antt the constructor and `format`, and Journal/Requests.antt the requests of
--   src/QjournalProtocol.h as data, with their dispatch and their runs.
-- * Edit logs: EditLog/Input.antt (src/JNClientInputStream.cpp), EditLog/Output.antt
--   (src/JNClientOutputStream.cpp), EditLog/File.antt (src/EditLogFile.cpp, src/EditLogFile.h), and
--   EditLog/Transaction.antt (src/TestJNClientOutputStream.cpp), which makes the bytes of one
--   transaction.
-- * Manager.antt is src/FileJournalManager.cpp; Storage.antt is src/JNStorage.cpp with
--   util/StorageInfo.h; LongFile has util/PersistentLongFile.h and util/BestEffortLongFile.h; Files
--   has util/JNServiceMiscUtils.cpp; Messages has the messages of
--   ice-qjournal-protocol/QJournalProtocol.proto that the journal uses.
-- * The node: Node.antt is src/JournalNode.cpp with src/JournalNode.h, the journals by their ids;
--   Rpc.antt is src/JournalNodeRpcServer.cpp and Rpc/Translator.antt
--   ice-qjournal-protocol/QJournalProtocolServerSideTranslatorPB.cpp, from a message to a call of a
--   journal and back, and Rpc/Endpoint.antt the Ice server (ice-rpc-cc/src/Server.cc); Http.antt is
--   src/JournalNodeHttpServer.cpp, the download of a segment by another node, and Http/Polling.antt
--   the loop of its thread; Server.antt puts them together, as events one after another, and
--   Server/Starting.antt is `start` and `main` of src/JournalNode.cpp.
-- * Logger.antt is util/Logger.cpp with util/Logger.h; the other parts do not model their messages.
-- * Client.antt is ice-qjournal-protocol/Client.cpp, the console client, over the characters of its
--   input; the proxy is a parameter, and Client/Report.antt has it reach a node.
-- * Cluster.antt puts several nodes beside each other, each with what writers send it, in its order.
--   No node calls another for this, so what reaches one of them says nothing of the others; that a
--   writer goes on with the answers of a majority is the rule of the name node, which is not here.
-- * Dict is `std::map` with strings for keys, as the list of its entries in order.
-- * Base has the outcome of a call, the calls that keep a state, integers and bytes; Text the
--   numbers as streams print them and `strtol` reads them; Stream an output file stream.
--
-- A call takes the journal with the files and gives an outcome and the journal afterwards. The
-- outcome says whether the code is 0, is -1, or whether the call ends the process, behaves
-- undefinedly or never ends; what was done before stays done. A lock that a call holds while it runs
-- makes the calls of one journal follow each other, so a run is a list of requests. The files of a
-- node are those of its journals together; the ones in a journal count only while it is called.
--
-- The operating system, boost::filesystem, boost::regex, the protocol buffers, libcurl and the
-- property files of Ice are the parameter `Host` (Host.antt); each call of it may fail. What a
-- theorem relies on is a hypothesis (Host/Laws.antt, Host/Appending.antt, Host/Patterns.antt), and
-- Host/Memory.antt is an instance with files in memory, over which the tests run.
--
-- A `long` is an integer, and where the program converts it to an unsigned number the wrap-around is
-- written out; a sum of txids that leaves its range is undefined behaviour. The position in a scanned text is a 32-bit number, as the
-- header of the scanner declares it. The scan loop has a round for each position, which is more than
-- a file of whole transactions needs; a scan that uses them up is an endless loop. The sort of the
-- library is insertion; where two of the logs are equal the order of the source is not one that the
-- library sorts by, and sorting is undefined behaviour.
--
-- Not modelled: mongoose, a copy of a web server, whose `mg_get_var` and polls are parameters; the
-- work of Ice, whose `main` and wait for the shutdown are parameters; the helper
-- ice-qjournal-protocol/src/StreamProtobuf.h, which comes with Ice; the messages, but for the one on
-- an old serial number, which is undefined behaviour; and the threads of the node, of which the one
-- of the RPC server and the one of the web server change the map of journals without a lock: the
-- events of the model follow one another.
pub mod Base
pub mod Dict
pub mod Text
pub mod Messages
pub mod Host
pub mod Stream
pub mod LongFile
pub mod Files
pub mod EditLog
pub mod Storage
pub mod Logger
pub mod Manager
pub mod Journal
pub mod Node
pub mod Rpc
pub mod Http
pub mod Server
pub mod Client
pub mod Cluster
pub mod Tests
