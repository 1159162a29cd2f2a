-- ===== src/Lib.antt =====
-- Sonalmod: the runtime of an agent application.
--
-- A request names a session, and a model or a saved profile. The agent runner chooses how it is
-- run; the background runner runs it in a goroutine, one at a time for each session, and passes
-- its events through an event bus to the caller and to any later reader of the session; a result
-- is consumed as a text, whole or as a stream. Around these, session storage keeps metadata for
-- listings, and the application has logins with refresh tokens.
--
-- Parts, files and their sources, in runtime/internal if no directory is given:
--   EventBus        event_bus.go: `Bus` is `EventBus`; Channels has its methods as they run under
--                   the mutex, System their interleavings (`step`, `run`), Invariant,
--                   Preservation, Closing, Replay, Publishing and Blocking the
--                   proofs
--   Background      background_runner.go, and sliceToIter and the result of ReadSession of
--                   agentrun.go: Iters the streams, Runs `Run` and its goroutine, Exclusive the
--                   interleavings, Reads `ReadSession`, Feed `runBackground`
--   SessionEvent    session_event.go, and the text parts of run_result.go
--   RunResult       run_result.go: Defs the consumers, Answer and Streaming what they give
--   Profiles        agentprofiles/agent_profiles.go: Defs the normalising functions, Lists and
--                   Normal the proofs
--   AgentRun        agentrun.go, agentexec_error.go: Defs `AgentRunner.Run`, Dispatch its outcomes
--   Sessions        sessions/metadata.go, memory.go and file.go (Metadata, StateDelta),
--                   metadata_sync.go (Paging its search, Sync its operations)
--   FileSessions    sessions/file.go, the sessions of the file storage: Disk the files, Service the
--                   operations, Listing `List`; Created, Appended, Filters and Unlistable the
--                   proofs, with the lemmas of Frames, Whole and Appending
--   ProfileFiles    agentprofiles/file_agent_profiles_service.go: Markdown the text of a file,
--                   Service the operations; Parsing, Restoring and Created the proofs
--   Providers       llmproviders/providers_config.go and file_providers_config_service.go (Defs,
--                   Files), models_locator.go (Locator); Kept, Deleted, Cached and Listed the proofs
--   AcpRecorder     acpstdio/session_recorder.go: Events what is stored, Service `Record`;
--                   Projected, Logged and Complete the proofs
--   Summarize       summarize/summarizer.go (Truncating) and llm_summarizer.go (Llm); Cut and Titles
--                   the proofs
--   Workspace       tools/workspacefs/internal/workspacefs: read.go (Paths, Read), edit.go
--                   (Edit); Confined, Lines, Lengths, Bounded and Replacing the proofs
--   Auth            apps/sonalmod/internal/auth: refresh_store.go (RefreshStore), service.go
--                   (Service), user_store.go (UserStore); Rotation, Distinct and Usernames the
--                   proofs
--   Base            shared names: Boolean tests, lists, texts, maps as association lists
--   Witnesses       the theorems at concrete inputs
--
-- Conventions. Numbers are natural numbers; counts, ids and times of the source are taken as
-- unbounded. A text is the list of its code points; in Summarize and in the contents of the files of a
-- workspace it is that of its bytes. The disk is a map from paths or names to contents. The encoders
-- and decoders of YAML are arguments, and so is what JSON makes of an `any` (`Json`, in Disk of
-- FileSessions), which each write of a session file applies. A
-- stream is the list of what it yields to a consumer that does not stop it. Failures of the file
-- system, the random source, the clock's reading and the answers of third-party code (the ADK,
-- GenAI, SHA-256, password hashing, token signing) are arguments. A Go map is an association list,
-- and results about one are of its lookups. Code that may wait or panic has an outcome `done`,
-- `blocks` or `panics`; a channel holds 256 events as in the source.
--
-- Fuel: the paged search of metadata_sync.go has it. One round more than there are matching entries
-- is enough, since each page that does not end the search has an entry. The binary search in `Get`
-- of sessions/file.go has the length of the list, which its interval halves from. The count of an
-- edit has one more than the length of the content, of which each place takes some.
--
-- Not modelled: HTTP handlers and generated code, databases, child processes, the tools but for the
-- paths, reads and edits of a workspace, the conversions of the Genkit adapter, configuration,
-- telemetry and the user interface. Context cancellation is modelled where a consumer of a result
-- tests it, and not in the readers of a bus, which may stop at any point instead.
pub mod Base
pub mod EventBus
pub mod Background
pub mod SessionEvent
pub mod Summarize
pub mod Providers
pub mod RunResult
pub mod Profiles
pub mod AgentRun
pub mod AcpRecorder
pub mod Sessions
pub mod FileSessions
pub mod ProfileFiles
pub mod Auth
pub mod Workspace
pub mod Witnesses
