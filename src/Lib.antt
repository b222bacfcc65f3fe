-- ===== src/Lib.antt =====
-- Kerdoos, a self-hosted price tracker: it scrapes product pages, keeps the readings, and mails
-- digests by cron schedules. This library models its core in the packages kerdoos and autolycos
-- (packages/kerdoos/src/kerdoos and packages/autolycos/src/autolycos).
--
-- A scrape fetches a page with retries, parses it, and turns the outcome into a record (Scrape).
-- Records and digest runs are rows of two tables (State). The evaluator's tick reads the enabled
-- jobs and the registry, scrapes what is due (plan A) and sends what is due (plan B), and its loop
-- repeats the tick (Evaluator). A run asked for by hand goes through the run queue (RunQueue). The
-- front ends log owners in and out through the authentication service (Auth), and change sites,
-- products, sources and jobs through the application service (AppService), which writes them to the
-- configuration store (ConfigStore). A fetch goes out through the SSRF guard and the egress proxy
-- (Egress), by a fetcher that the router builds, and under the browser gate (Fetching). A digest is
-- rendered and mailed with retries (Digest), which the evaluator takes as its sender. Web requests
-- carry a signed cookie and a CSRF token, and MCP requests a bearer token (Web).
--
-- Prelude: tests, lists and dicts shared by all.
-- Scrape: core/domain.py and the ports (Scrape/Domain), core/retry.py `fetch_with_retry`
--   (Scrape/Retry), core/verdict.py `compute_verdict` (Scrape/Verdict), core/orchestrator.py
--   `scrape_one` (Scrape/Orchestrator).
-- Registry: the data of registry/ports.py and `Registry.iter_sources`; Registry/Jobs has the options,
--   schedules and identifiers.
-- ConfigStore: registry/sqlite_store.py; ConfigStore/Tables has the schema and the reads,
--   ConfigStore/Operations the writes, each a function of the tables, with the constraints and the
--   cascades that the schema declares. ConfigStore/Integrity is about the keys, Tenancy about other
--   owners, Catalogue about the registry that `load` builds; ConfigStore/Owners has `ensure_owner`.
-- AppService: core/app/services.py; `add_site` to `update_job` as actions on the tables,
--   `import_config` in AppService/Batches, `run_now` in AppService/Runs.
-- Egress: safety.py, registry/domain_policy.py and registry/url_validation.py (Egress/Safety), and
--   egress_proxy.py (Egress/Proxy): `handle` answers one client with the list of its effects.
-- Settings: config.py, the numbers of `get_settings` as a table of variables; Settings/Budgets has the
--   clamp and the warnings on the order of the deadlines.
-- Fetching: browser_gate.py (Fetching/Gate), router.py (Fetching/Router), the checks of tiers.py
--   (Fetching/Tiers), challenge.py (Fetching/Challenge), adapters/http.py and adapters/tls.py, which
--   follow redirects alike (Fetching/Hops), and of adapters/browser.py the hosts a page may load, the
--   check of the final document, and the count of abandoned fetches (Fetching/Browser).
-- Digest: packages/kerdoos/src/kerdoos/digest. Digest/Texts and Digest/Prices print, Digest/Render is
--   `render_digest`, Digest/View `build_digest_view`, Digest/Smtp the transaction and the retries of
--   smtp_sender.py, Digest/Sender the rest of `SmtpDigestSender.send` and the choice of factory.py.
-- Web: interfaces/web/security.py and csrf.py (Web/Cookies), deps.py and interfaces/mcp/auth.py
--   (Web/Guards), and the login and logout of routers/public.py (Web/Logins).
-- State: persistence/sqlite_store.py; State/Scrapes has `record`, `history`, `latest_all`,
--   State/JobRuns has `record_job_run`, `update_job_run`, `has_active_job_run`,
--   `reap_stale_job_run` and `latest_job_runs`. A table is a list of rows and a statement a function of it.
-- Evaluator: core/evaluator.py; Evaluator/Executor has the two send executors,
--   Evaluator/Warnings the warning tracker, Evaluator/World the state and the effects,
--   Evaluator/PlanA `_run_plan_a`, Evaluator/PlanB `_run_plan_b`, Evaluator/Tick
--   `_reap_stale_job_runs`, `evaluate_tick` and `run_evaluator_loop`.
-- RunQueue: core/run_queue.py `RunQueue`; `enqueue` and the places where the consumer and its
--   supervisor suspend are events, and `run` takes any sequence of them.
-- Auth: registry/auth_store.py `SqliteAuthStore` (Auth/Store) and core/app/auth.py `AuthService`
--   (Auth/Service).
-- Examples: the main theorems at concrete inputs.
--
-- Stamps, cents and periods are natural numbers; ISO texts stand for the instants they name, and
-- error texts are constructors with the values that they format. An exception is a value; where the
-- code tells classes apart, `other` carries the class's name. A float of a job's options is its
-- count of thousandths. croniter, the clock, the fetchers, the parsers, the router, the mail
-- sender, failures of the state store, the password hasher, sha256, the DNS, ipaddress, urlsplit,
-- the sockets and the lock files are arguments (`Env`, `Fetcher`, `Parser`, `Crypto`, `Net`,
-- `Deployment`, `Ports`), and so are the HMAC, datetime and Jinja (`Printing`), the HTTP clients
-- (`Tools`) and what an SMTP server does in each attempt (`Session`); nothing is assumed of them
-- but what a theorem names. The hash of a new session or token is taken to be new, so that its
-- insertion does not fail. The send of a timed-out thread counts as made. The threads of browser
-- fetches are events, in any order. Loops are structural recursions on lists or on the retries
-- left; four have fuel. The reading of a head gets 65538 turns, and each adds a byte of at most
-- 65537. The wait for a lock file gets one turn for each round until the clock reaches the
-- deadline. The printing of a number, in digits or in groups of three, gets one turn more than the
-- number. Sends of one tick are in sequence, as the code awaits each.
--
-- Not modelled: the texts of config.py, the YAML import, the accept loop of the proxy and the bytes
-- of its tunnel, the drivers of the browsers (the launch and the kill of processes in
-- adapters/browser.py, adapters/uc.py, adapters/camoufox.py), the parsers, the log sender, the
-- templates, the other routes of the web front end, the tools of the MCP server, and the command
-- line. Schema migrations and log lines are left out everywhere, but for the latched warnings of
-- config.py. The configuration store is taken to fail by its constraints alone.
pub mod Prelude
pub mod Scrape
pub mod Registry
pub mod State
pub mod Evaluator
pub mod RunQueue
pub mod Settings
pub mod Egress
pub mod Fetching
pub mod ConfigStore
pub mod Digest
pub mod Auth
pub mod AppService
pub mod Web
pub mod Examples
