-- ===== src/Lib.antt =====
-- Andera, the browser agent: its work queues, the workers of a run and of an agent pool, the state
-- machine of one sample, the results of a run, its artifacts and its audit logs.
--
-- A run puts one job per sample into the queue; workers claim jobs, and each job is one run of the
-- agent's graph over a browser session. A failed job goes back to the queue until its attempts are
-- used up. Results go to samples.jsonl, from which the report is made, and events to the audit log.
--
-- Which file models which part:
-- - Queue, Queue/Sqlite: src/andera/queue/sqlite_queue.py. The table is the list of its rows in the
--   order of their rowid; each method of SqliteQueue is a function of the clock readings and uuids
--   that it draws. Queue/Sqlite/History has the calls of all workers as one sequence, in the order
--   in which the lock lets them through; the files beside it hold the proofs.
-- - Queue/Redis: src/andera/queue/redis_queue.py, over the Redis server as a parameter: Queue/Redis/Commands
--   has the commands that the file sends, and what their documentation says of one another.
-- - Queue/Make: make_queue of src/andera/queue/__init__.py, and its calls.
-- - Credentials: src/andera/credentials/detect.py and storage_state.py. AES-GCM, HKDF, base64 and
--   urlparse are parameters.
-- - Json: a decoded JSON value as Python sees it.
-- - Agent/Effect: what a call to the world outside comes to: a value or an exception, and the next
--   state of that world.
-- - Agent/Tools: src/andera/tools/_runner.py and browser.py. The browser session is a record of
--   operations, and a parameter.
-- - Agent/Observations: compact_observations of src/andera/agent/state.py.
-- - Agent/Step, Agent/State: PlanStep, AgentState and AgentDeps; the models, the plan cache, the
--   browser and the regular expressions are parameters there.
-- - Agent/Descriptor: the structural descriptors of elements in src/andera/agent/nodes.py.
-- - Agent/Plan, Agent/Act, Agent/Verify, Agent/Extract: the seven nodes of nodes.py. The ladder over
--   the actions is Agent/Act/Handlers.
-- - Agent/Graph: src/andera/agent/graph.py and the routers. A run goes along the edges with the
--   number of nodes that recursion_limit still allows.
-- - Agent/PlanCache: src/andera/agent/plan_cache.py, the cache in memory and on disk. Memory has references to
--   lists that the nodes write into.
-- - Storage/AuditLog: src/andera/storage/audit_log.py. SHA-256 and the JSON codec are a record of
--   operations and laws, Codec; Storage/AuditLog/Joined is about the text that is hashed.
-- - Storage/AuditLogPg: src/andera/storage/audit_log_pg.py, a chain per run in one table, over
--   what a JSONB column gives back for a text.
-- - Storage/SafeName, Storage/ArtifactStore: src/andera/storage/artifact_store.py.
-- - Storage/Manifest: src/andera/storage/manifest.py.
-- - Agent/Reply: _parse_json of src/andera/agent/nodes.py and src/andera/agent/classify.py: the reading of a
--   reply. In the nodes a reply carries the parsed value or the exception.
-- - Config: _apply_env_overrides of src/andera/config/loader.py, over the decoded profile and the environment.
-- - Orchestrator/Recorder, Orchestrator/Report: the results of RunWorkflow in
--   src/andera/orchestrator/runner.py: counters and samples.jsonl, the summary and output.csv.
-- - Orchestrator/Worker: the loop _worker of one worker, over an interface of operations and laws that
--   Orchestrator/Worker/OnSqlite fills with SqliteQueue and Orchestrator/Worker/OnRedis with RedisQueue.
-- - Orchestrator/Sample: _run_one of runner.py, over the audit log, the browser pool and the graph.
-- - Orchestrator/Crew: the workers that execute gathers, which take turns on one queue. A turn goes from
--   one await of a worker to the next.
-- - Orchestrator/Run, Orchestrator/Execute: execute of src/andera/orchestrator/runner.py: enqueueing, the
--   take-over of a resumed run, the loop over the workers, and queue_drained.
-- - Orchestrator/Finalize: finalize of runner.py, over the files of a run and its audit log.
-- - Orchestrator/AgentPool: src/andera/worker.py: _execute_sample, WorkerNode.run and run_agent_pool.
-- - Browser/RateLimiter: src/andera/browser/rate_limiter.py. The limiter stands before each page load.
-- - Browser/Pool: src/andera/browser/pool.py: the semaphore, and the browser that sessions share.
-- - Api/EventBus: src/andera/api/ws.py. Api/Registry and Api/Finalizer: the records of
--   src/andera/api/registry.py and the loop _finalizer_loop of src/andera/api/app.py, which calls
--   queue_drained and finalize of a workflow.
-- - Tests: concrete runs, and the theorems applied to them.
--
-- Fuel: the run of the graph counts down the recursion limit of the code, 200 nodes if the caller
-- names none. The loop of a worker has as much fuel as its caller gives; a loop that outlives it gives
-- none. The workers of Orchestrator/Crew take the turns of a schedule.
--
-- Not modelled: the texts of prompts, timings and call ids of tool results, numbers with a
-- fraction but the tokens of the rate limiter, the drivers of the
-- browser and of the models, and the parts of the program that no file above names.
pub mod Common
pub mod Json
pub mod Queue
pub mod Agent
pub mod Credentials
pub mod Storage
pub mod Config
pub mod Browser
pub mod Api
pub mod Orchestrator
pub mod Tests
