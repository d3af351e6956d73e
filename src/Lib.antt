-- ===== src/Lib.antt =====
-- clideck-mcp: a knowledge service for network engineers. Clients ask over MCP and HTTP; expert
-- tasks and the learning pipeline turn sources into reviewed knowledge, which releases publish.
-- This library models the parts with the program's own state and rules, and proves what makes them
-- correct. Paths are from the repository's root.
--
-- The parts and their modules:
--   Pipeline.Scheduler    src/domain/pipeline-scheduler.ts: fillWeightedAiCapacity, which hands the
--     free executor lanes of the learning pipeline to the stages. The callback `queueStage`, which
--     asks the database, is a parameter over a state of its own. The two `while` loops run on
--     `concurrency` as fuel: each round but the last occupies a lane, so it is enough.
--   Pipeline.Transitions  src/domain/pipeline-transitions.ts: the append-only log of stage
--     transitions, recordPipelineTransition(s) and the cursor pages of listPipelineTransitions.
--   Expert                The life of an expert task in the tables expert_tasks, task_messages,
--     task_public_events and task_artifacts. Expert.Client is src/domain/tasks.ts (the requester:
--     createExpertTask, getExpertTask, continueExpertTask, cancelExpertTask), Expert.Researcher is
--     src/domain/researcher.ts (claimResearchTask, heartbeatResearchTask, requestResearchInput,
--     submitCandidateRevision, failResearchTask, proposeCodeChange), Expert.Worker is the part of
--     src/domain/publication.ts that works on these rows (processNextCandidate,
--     runWorkerMaintenance). Expert.Steps puts the operations together as steps between databases,
--     with the statements by which the task queue of src/domain/pipeline.ts sets an expert task, and
--     a run is a sequence of them in any order (Reach). actOnExpertTask of src/domain/admin.ts and
--     updateTaskStatus of src/mcp/postgres-task-store.ts, which set a row whatever its status, are
--     no steps of it.
--   Http.RateLimit        src/http/security.ts: consumeRateLimit and consumeDailyRateLimit over the
--     table rate_limit_buckets.
--   Version               src/version.ts: normalizeVendorVersion, compareNormalizedVersions and
--     isVersionApplicable; Version.Applicability and Version.Effective are deriveVersionBranch,
--     matchVersionApplicability, assuranceFor, publicMatchLevel and effectiveApplicability of
--     src/domain/applicability.ts.
--   Pipeline.Evidence     src/domain/pipeline-v2.ts: batchEvidenceUnits, which cuts evidence units
--     into batches by window, error class, records and tokens.
--   Pipeline.Limits       src/domain/pipeline.ts and src/domain/pipeline-limits.ts: the pure rules
--     boundFragmentAnalysisBatch, nextDeepReviewBatchLimitAfterCleanPass,
--     codexCircuitCooldownSeconds and demandFailureDisposition.
--   Release               Knowledge releases in src/domain/publication.ts: Release.Tables has releases,
--     release_items, release_changes and active_knowledge_state, Release.Publish has
--     publishKnowledgeBatch and publishCompensatingChanges, Release.Activate has
--     activateKnowledgeRelease. Releases are deltas on their parents with a full list at a
--     checkpoint; Release.History is the sequences of the three operations.
--   Pipeline.Tasks        The task queue of the learning pipeline, src/domain/pipeline.ts, with the
--     circuits of models in src/domain/pipeline-execution.ts and the executors of
--     src/domain/pipeline-runtime.ts. Tables has pipeline_tasks and the tables beside it in one
--     Store, and Columns the tests on their columns; Queue has insertTask, recordEvent,
--     recordExecutorHeartbeat, findPipelineLease and completeTask; Recover has
--     reconcileExpiredLeasesWithClient, and Runs reconcileTerminalProcessingRunsWithClient of
--     src/domain/intake.ts, which it ends with; Lease has heartbeatPipelineTask,
--     heartbeatMechanicalPipelineTask and completeMechanicalPipelineTask; Messages has the tests on
--     failure messages, their regular expressions written out; Fail and FailTask have
--     failPipelineTask; Circuits has claimableExecutionSql and clearStaleModelProbes; AgentRuns has
--     recordAgentRunResult; Execution has publishExecutionCatalog and setExecutionSettings of
--     src/domain/pipeline-execution.ts; Select, Choice, Claim and ClaimTask are claimPipelineTask (the ranking
--     query, the model and the writes); Mechanical has claimMechanicalPipelineTask. Invariant puts
--     the operations together as steps in any order. JSON.stringify of a list of keys is a
--     parameter `stringify`; the JSON result of a discovery is a text, and `no_evidence` reads it.
--     The constraints of the tables that a statement can meet (the unique indexes of live tasks, at
--     most ten attempts) are error values. Prelude.Table has the lemmas on UPDATE, SELECT and ORDER
--     BY ... LIMIT 1.
--   Security.UrlPolicy    src/security/url-policy.ts: the blocked addresses (Addresses, on the text of
--     an address) and the checks and the probe of a URL (Probe). isIP, `new URL`, the DNS and the
--     network are parameters. The redirect loop runs on the number of requests that are left, six at
--     first, as in the source.
--
-- How the code is read. A table is the list of its rows; an UPDATE sets the rows that its WHERE
-- clause meets; a transaction is a function from database to database, which leaves it as it was
-- where the code throws. `now()` is an argument, in seconds; sha256, the HMAC and random tokens are
-- parameters or arguments, and nothing is assumed of them. Rows that other transactions have
-- locked (FOR UPDATE SKIP LOCKED) are a test that a claim is given. Where two statements of one
-- operation run outside a transaction, Expert.Races says what may come between them.
--
-- Not modelled: the HTTP and MCP servers, the admin console and its queries, the command-line
-- tools, schemas (zod) and SQL migrations, which are input, output and storage; the text of
-- prompts; the full learning pipeline of src/domain/pipeline.ts beyond the parts above.
pub mod Prelude
pub mod Pipeline
pub mod Expert
pub mod Release
pub mod Version
pub mod Http
pub mod Security
