-- ===== src/Lib.antt =====
-- AWS IoT FleetWise Edge, the agent that collects data from a vehicle and sends it to the cloud. This
-- library models parts of its core.
--
-- The parts and how they interact: data sources decode signals and hand large values to the raw
-- data buffer manager, which gives back handles; the inspection engine keeps handles in its history
-- and selects some of them for upload; the senders borrow the data of a handle. Which signals are
-- collected, and so which buffers exist, follows from the collection schemes, which the collection
-- scheme manager enables and disables on a timeline.
--
-- RawData: src/RawDataManager.cpp and include/aws/iotfleetwise/RawDataManager.h
--   RawData/Types            Frame, BufferHandleUsageStage, StorageStrategy, SignalConfig, Buffer
--   RawData/Buffer           BufferManager::Buffer: addData, deleteUnusedData, deleteDataFromHandle;
--                            its child modules say what these keep and when a sample is accepted
--   RawData/Config           BufferManagerConfig: create, getSignalConfig
--   RawData/Run              FWE_FATAL_ASSERT of include/aws/iotfleetwise/Assert.h as an outcome
--   RawData/Stats            the state, addBufferToStats, deleteBufferFromStats, checkMemoryLimit
--   RawData/Manager          push, borrowFrame, findBufferAndFrame, generateHandleID
--   RawData/Usage            the usage hints, returnLoanedFrame, deleteUnused, resetUsageHintsForStage
--   RawData/Update           updateConfig, addRawDataToBuffer
--   the other modules        the invariant of the manager, and what the operations do to it
--
-- Schemes: src/CollectionSchemeManager.cpp and include/aws/iotfleetwise/CollectionSchemeManager.h
--   Schemes/Types            TimePoint, timePointFromSystemTime of src/ClockHandler.cpp, the scheme,
--                            TimeData and the priority queue, the maps with the timeline
--   Schemes/Schedule         rebuildMapsandTimeLine, updateMapsandTimeLine, checkTimeLine
--   Schemes/Manager          the state, the callbacks, updateAvailable, processDecoderManifest,
--                            processCollectionScheme
--   Schemes/Templates        processStateTemplates
--   Schemes/MainLoop         doWork up to the extraction, updateCheckinDocuments,
--                            isCollectionSchemesInSyncWithDm, updateActiveCollectionSchemeListeners
--   the other modules        what an update does to one scheme (Update, Rebuild) and what it
--                            reports (Changes, Reports), the timeline and the schemes
--                            (TimeLine, Scheduled, Keep, Updated, Expiry, Places), the
--                            hand-over of documents (Handover)
--
-- Can: src/CANDecoder.cpp, with include/aws/iotfleetwise/SignalTypes.h and MessageTypes.h
--   Can/Types                the formats, the decoded values
--   Can/Extract              extractRawSignalFromFrame, extractIntegerSignalFromFrame
--   Can/Decode               decodeIntegerSignal, decodeFloatingPointSignal, decodeCANMessage
--   Can/Field                the frame as one number, and the bits of a signal in it
--   the other modules        the loops (Residual), the extraction (Extracted, Signed, Pack), and the
--                            message (Message)
--
-- Inspection: src/CollectionInspectionEngine.cpp, with
--   include/aws/iotfleetwise/CollectionInspectionEngine.h, CollectionInspectionAPITypes.h and
--   ICollectionScheme.h
--   Inspection/Types         ExpressionNode, InspectionValue, the error codes
--   Inspection/Eval          eval; Inspection/Meaning says what an expression means
--   Inspection/Buffer        SignalHistoryBuffer, addNewSignal for one buffer, collectLastSignals;
--                            History, Recorded and Collect are about the samples in the ring
--   Inspection/Reading       getLatestSignalValue, isNewSignalValueAvailable: the buffer that is read by
--                            the type of the signal; Inspection/Latest, which of its samples
--   Inspection/Windows       FixedTimeWindowFunctionData, getSampleWindowFunction; Windowed says when a
--                            window is open, WindowValue which samples it counts
--   Inspection/Connected     what eval reads, from the buffers and windows of a condition;
--                            Inspection/Formula, conditions on the values of signals
--   Inspection/Conditions    evaluateConditions, with the fetch and the forward conditions
--   Inspection/Publish       collectNextDataToSend, generateEventID
--   Inspection/Trigger       the life of one condition, with a log of its triggers
--   the other modules        the fetch conditions (Fetch), what is published (Published)
--
-- Retry: src/RetryThread.cpp and include/aws/iotfleetwise/RetryThread.h
--   Retry/Work               the rounds of doWork, restart
--   Retry/Backoff            the waits
--
-- Numbers: a size_t is a number below 2 ^ 64 whose sums and differences wrap (add64, sub64), and the
-- counters of a frame are bytes. Loops: the `while` loops of Buffer recur on the number of rounds
-- left and start with the number of frames, which is enough since each round deletes one. The `for`
-- loops recur on their range. The loop of checkTimeLine pops an element of the timeline in every round
-- that goes on, so it recurs on the timeline and needs no fuel.
-- The loops of the decoder and of the inspection engine recur on the rounds that their bounds leave,
-- and eval on the depth of the stack that the code gives it. An int64_t is given as its 64 bits, and a
-- signed product or sum that overflows is taken to wrap. A shift by the size of a word or more, and a
-- read out of a frame, give none.
--
-- Maps and queues: a std::unordered_map is an association list, in which the order of iteration is
-- the order of the list; a std::map keeps its keys in order; std::priority_queue is the list of its
-- elements in the order in which it gives them out. An identifier is a number, since the code only
-- compares it. A document that protobuf parses comes with the outcome of its `build`.
--
-- Parameters: the floating point numbers of the platform with the operations and conversions that the
-- code applies (Doubles, Arithmetic), the conversions and the order of the values of a signal, which has
-- no NaN (Conversions, Numbers), the callbacks of custom functions, and, for eval, the reads of the
-- latest values, the windows and the consumed marks (Reads), which Inspection/Connected fills in.
--
-- Concurrency: an operation of BufferManager runs under its lock and is one step. The callbacks of
-- CollectionSchemeManager and updateAvailable run under one lock, and the rest of a round belongs to
-- the thread of the manager.
--
-- Not modelled: in RawDataManager, the getters of statistics, the times in memory and the move of
-- LoanedFrame; the extraction of the inspection matrix and of the decoder dictionaries, the
-- persistency and the wait of CollectionSchemeManager; in the inspection engine, the loops
-- over the windows of all signals, the allocation of the buffers, the packing of trouble codes
-- and the callbacks of custom functions, which are left to do; the start and stop of threads, logging
-- and tracing; and the components that send, connect, store and forward.
pub mod Prelude
pub mod RawData
pub mod Schemes
pub mod Can
pub mod Inspection
pub mod Retry
