-- ===== src/Lib.antt =====
-- WES OS, the backend (backend/app): a FastAPI application over one SQL database that runs a
-- software company of AI employees. Its services read and write tables through a session; a
-- request is one transaction over it, and a worker thread drains a queue of jobs.
--
-- Base holds what all parts share: numbers, lists, texts as lists of code points, the rows of a
-- table in the order of insertion (Table, Rows), and the actions of a service on a session, with
-- its exceptions and the transaction of a request (Session; backend/app/core/database.py,
-- backend/app/core/exceptions.py).
--
-- Jobs: the background queue (backend/app/models/jobs.py, backend/app/services/job_queue.py) and
-- one step of its worker (backend/app/services/job_worker.py). State has the row, Row what each
-- operation writes to it, Queue the operations on the table (enqueue, claim_next, heartbeat,
-- complete, fail, recover_orphans, cancel, pause, resume, retry), Worker run_once. Two workers are
-- two sequences of the two statements of claim_next, the SELECT and the guarded UPDATE.
--
-- Access: roles and permissions (backend/app/domain/roles.py, backend/app/api/deps.py) in Roles,
-- tokens (backend/app/services/tokens.py) in Tokens, the tables (backend/app/models/employee.py,
-- backend/app/models/security.py) in Accounts, login, refresh and logout
-- (backend/app/services/auth.py, backend/app/services/password.py, backend/app/api/v1/auth.py) in
-- Auth. The JWT library is a record of its two functions with its documented behaviour on expiry,
-- and bcrypt a function; SampleJwt shows that the former can be had.
--
-- Devops: the tables (backend/app/models/devops.py, backend/app/domain/devops_enums.py) in State,
-- deployment, approval and rollback (backend/app/services/devops_deploy.py) in Deploy, the steps
-- of the pipeline with the build, the release and the incident that it writes
-- (backend/app/services/devops_build.py, backend/app/services/devops_release.py,
-- backend/app/services/devops_monitor.py) in Pipeline, and the run itself, stage by stage, and the
-- production deployment (backend/app/services/devops_pipeline.py) in Run. What the compiler, tar,
-- pytest, Docker and the file system answer are the records World and Host.
--
-- Knowledge: the tables (backend/app/models/knowledge.py, backend/app/domain/knowledge_enums.py)
-- in State, slugs, categories, tags and documents (backend/app/services/knowledge.py) in Slug and
-- Documents, versions and reviews (backend/app/services/knowledge_versions.py) in Versions.
--
-- Limits: the rate limiter of requests (backend/app/core/rate_limit.py): Limiter has its windows
-- and `dispatch`, Window the limiter that keeps the whole history.
--
-- Platform: the tables of providers, budgets, usage and billing
-- (backend/app/models/provider_platform.py, backend/app/models/orchestration.py) in State, the
-- settings of providers and the mapping of roles (backend/app/services/providers_service.py) in
-- Providers, usage, billing, metrics and the order of failover
-- (backend/app/services/provider_platform.py) in Usage, limits on spending
-- (backend/app/services/budget_service.py) in Budget, credentials
-- (backend/app/services/secret_service.py) in Secrets over the ciphers of
-- backend/app/core/secrets.py in Cipher, whose hashes and encodings, and Fernet, are parameters,
-- and the configuration of a provider's adapter in Runtime. A float is its 64 bits, and the
-- operations on floats are the parameter FloatOps, of which nothing is assumed.
--
-- Orchestration: the runs of AI work (backend/app/services/orchestration.py): the tables in State,
-- PromptBuilder in Prompt, the attempts on a provider and the failover over a chain in Attempts,
-- the threads and the memory in Threads, the budget gate and the ends of a run in Runs, run_stage
-- from its start, run_workflow and review_run in Stage. It calls Platform for the provider, the
-- budget, the chain and the bookkeeping. The record World is what a run takes from outside: the
-- keys of new rows, the clock, what ContextBuilder.build reads, and the adapters of the providers
-- (backend/app/providers), which may answer each call by what they were asked before. An adapter
-- returns, raises a RateLimitError, another ProviderError, or anything else.
--
-- Work management (backend/app/services/work.py): the tables in State, the operations that add
-- projects, milestones, sprints and tasks in Tasks, those on a task that exists in Changes: its
-- update, assignments, dependencies and comments. Calls has the update of a project, where a
-- parameter says whether the database checks foreign keys, and sequences of calls (call_all), each
-- on the state that the one before left. Links says which references the rows have; Kept, Notes,
-- Writes and Refs follow them through the operations. Removals are left out, since the database
-- does their cascades.
--
-- Times are natural numbers, in seconds (nanoseconds in Limits), and enter as arguments, as do
-- fresh identifiers, which are numbers where the database has UUIDs; where a theorem needs one
-- to be unused it says so. Integers of Python are unbounded, so no width is chosen. Every loop
-- here runs over a list, or counts down the two attempts of MAX_ATTEMPTS. The loop of the key
-- stream alone has fuel, a round for each byte that is wanted, which is enough since a round
-- adds 32. Columns that only serve display are left out, as each file says.
--
-- Not modelled: the reads that format rows for the API, the polling thread of the worker, the
-- streamed run with its cancellations, the waiting between two attempts, the adapters of the
-- providers, the retrieval of knowledge for a prompt, the updates of sprints, the removals of
-- projects and tasks, the board, the development engine, the quality gate, repository analysis
-- and the frontend.
pub mod Base
pub mod Jobs
pub mod Access
pub mod Devops
pub mod Knowledge
pub mod Limits
pub mod Platform
pub mod Orchestration
pub mod Work
