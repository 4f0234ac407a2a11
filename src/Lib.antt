-- ===== src/Lib.antt =====
-- Verification of the collaborative code editor: a server that keeps projects, files and shared
-- documents, a runner that executes programs in containers, and the package of names they share.
--
-- The parts and how they interact. A request reaches the server, where auth/authorize.ts decides
-- whether the user may act on the project, and a service (projects/service.ts, files/service.ts)
-- changes the database. The edits of a document reach its room through the sockets, and go through the write buffer (persistence/buffer.ts)
-- into the log of the document store, which the compactor folds into a snapshot. A run is put on a
-- queue; the runner's worker executes it under its limits and publishes frames, which the run
-- registry of the server keeps and hands to the client that attaches.
--
-- The files, and the code that they model:
--   Base               tests, lists, JavaScript's string functions (a string is the list of its UTF-16
--                      code units), and apps/server/src/http/errors.ts: AppError, Result.
--   Database           what is used of the database client: a table behind laws. Memory is an
--                      instance, Distinct the lemmas on unique keys.
--   Shared.Protocol    packages/shared/src/protocol.ts: makeDocId, parseDocId, close codes.
--   Shared.Languages   packages/shared/src/languages.ts: the language registry, jobs and frames.
--   Auth.Authorize     apps/server/src/modules/auth/authorize.ts: assertProjectAccess,
--                      requireProjectRole.
--   Auth.Password      apps/server/src/modules/auth/password.ts: hashPassword, verifyPassword,
--                      burnVerificationTime. Verify compares the two.
--   Auth.Accounts      routes.ts, token.ts, authenticate.ts and requireAuth.ts of the same directory;
--                      Sessions is about registering, logging in and the tokens.
--   Files.Paths        apps/server/src/modules/files/paths.ts: assertValidPath and the functions on
--                      paths. Valid says what a valid path is, Ancestors relates the functions.
--   Files.Service      apps/server/src/modules/files/service.ts: readFile, createFile, deleteFile.
--                      Rooted is about creating, Deleted about deleting, over Parents and Keys.
--   Collab.Messages    apps/server/src/modules/collab/syncHandler.ts: handleMessage, the observers of
--                      a room, the frames of the bus between servers.
--   Collab.Join        the same file and room.ts: how a socket joins and leaves, disconnectProjectUser,
--                      disconnectProject, closeFileRooms; Revoked is about the latter.
--   Projects           apps/server/src/modules/projects/service.ts: createProject to removeMember.
--                      Owners has the calls as a step relation, over the
--                      counts of Counts; Race two calls that overlap.
--   Effects            what the services ask of other parts after a commit.
--   Persistence.Yjs    the part of the Yjs library that is used, with its documented laws.
--   Persistence.DocStore   apps/server/src/modules/persistence/DocStore.ts and postgresDocStore.ts,
--                      operation by operation.
--   Persistence.Compactor  persistence/compactor.ts: foldCandidate, maybeCompact.
--   Persistence.Buffer     persistence/buffer.ts: the variables of attachPersistence as a record, its
--                      callbacks as steps.
--   Execution.Registry     apps/server/src/modules/execution/registry.ts and the guard of routes.ts.
--   Execution.Service      execution/service.ts: startRun with its caps.
--   Runner.Limits      apps/runner/src/sandbox/limits.ts: runWithLimits.
--   Runner.Worker      apps/runner/src/worker.ts: handleRunJob.
--   Runner.Reaper      apps/runner/src/sandbox/reaper.ts: reapStaleContainers.
--   Collab.Handshake   apps/server/src/modules/collab/wsServer.ts: readCookie, handshake.
--   Collab.Rooms       apps/server/src/modules/collab/room.ts: the map of rooms and the pending writes,
--                      its functions cut at their awaits. Sound is the invariant, Steps the step
--                      relation; a room is named by the number of its promise.
--   Redis              apps/server/src/modules/redis/docBus.ts: Frames are the envelopes, Bus the
--                      handlers and the calls on the connections. Refines compares the bus with a
--                      map from channels to handlers.
--   Search             apps/web/src/features/search: Names (matchPath), Contents (matchContent), Tree
--                      (flattenTree, filterTree), Ranking (searchNames) and Scan (the effect of
--                      useProjectSearch with its six workers).
--   Client             apps/web/src/features/collab: Reconnect, and Provider (CollabProvider.ts) with
--                      the events of the browser; Tabs is editor/useOpenFiles.ts, Runs
--                      is terminal/useRun.ts with the life of its stream.
--   Examples           concrete inputs.
--
-- State and errors. A handler is a function from the state to its result: `Result` is ok or the
-- AppError that is thrown, `none` a thrown error of the database, after which the transaction has
-- changed nothing. Callbacks, timers and messages are events, and a run of a component is a list of
-- events in any order. Where others may come between, a call is cut at
-- its awaits: it takes the state that each await finds, or what others do meanwhile, or it is several steps. The
-- calls of the file and project services run one after another, except where a theorem is about overlap.
-- Sizes and ids are natural numbers; the subtractions of the source are of a
-- smaller number, or are bounded by 0 as the test beside them says.
--
-- Parameters. The database, Yjs, scrypt, jose, toLowerCase, the decoding of UTF-8, the clock, new ids and what
-- Redis answers are not in the repository; they are arguments, and what is assumed of them is named
-- where it is used. No recursion needs fuel: loops run over a list, and the loop of matchContent over
-- the number of results that are still wanted.
--
-- Not modelled: how a new room seeds its document, moving files, the schemas of request bodies, the container
-- driver, the components of React, the load test and the start-up of the processes.
pub mod Base
pub mod Collab
pub mod Database
pub mod Shared
pub mod Auth
pub mod Effects
pub mod Persistence
pub mod Execution
pub mod Runner
pub mod Search
pub mod Redis
pub mod Client
pub mod Files
pub mod Projects
pub mod Examples
