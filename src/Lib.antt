-- ===== src/Lib.antt =====
-- TraceX, a workbench for cases about Bitcoin evidence: an import of a source file is a durable job
-- that a worker claims under a lease, verifies, and takes through analysis stages, and the detectors
-- of structure read the facts that it produced.
--
-- Jobs follow the code that runs an import.
--   Jobs/Model    the rows of app/models.py that the lifecycle touches, and the session that holds
--                 them; what the code only compares (identifiers, worker names, times) is a number.
--   Jobs/Service  app/jobs/service.py and append_event of app/events.py: create_or_reuse_job,
--                 claim_next_job, complete_job, fail_job, record_worker_heartbeat, and
--                 fail_running_stage of app/jobs/analysis.py. Each takes the time and the session and
--                 returns the session that it leaves. Rows locked by another transaction are a
--                 predicate that claim_next_job takes.
--   Jobs/Analysis app/jobs/analysis.py: the newest outcome of each stage, the view over them and
--                 its grade, and StageTracker, on a session with its last commit.
--   Jobs/Retry    the route retry of app/api/analysis_routes.py with its refusals.
--   Jobs/Worker   process_one of workers/runner.py. Its two attempts are a loop on fuel 2, the count
--                 of the source's range(2). The clock, the files, the two stages behind the
--                 verification, and what other connections do before the handler reloads the row
--                 are a record World that the worker takes.
--   Jobs/Regroup  app/jobs/grouping.py: the requests that are pending, GroupingProgress._persist and
--                 run_grouping_only, on the session with the tables of groups. The progress thread
--                 is the failure that it may raise.
--   The other files of Jobs hold proofs: Rows, Sound, Preserve and Extended are about the table and
--   what every operation keeps of it; Lease is about interleavings of other workers' operations as a step
--   relation; Recovery, Attempts and Turn are about the failure handler and a
--   whole turn.
--
-- Motifs follow app/engine/motifs/deterministic.py on the facts of a snapshot.
--   Motifs/Model    outputs and inputs, and the dictionary of outputs.
--   Motifs/Spenders resolved_spenders, as the function from an outpoint to its spender.
--   Motifs/Peeling  peeling_hop and detect_peeling_chains with its cache of hops and the set of
--                   walks that it has emitted. A walk has the fuel max_hops of the source's range.
--   Motifs/Coinjoin detect_coinjoin_like_transactions: the groups of outputs of equal value.
--   Motifs/Seeds    propagate_synthetic_review_seeds, with the score as a function of the distance;
--                   its frontiers are taken max_depth times, the count of the source's range.
--
-- Grouping follows app/engine/investigations.py and app/engine/grouping_materializer.py.
--   Grouping/Model       findings and the rows of the investigation tables. A text is a number; the
--                        digests and identifiers made of texts are a record Texts of functions.
--   Grouping/Observe     observations: the anchors and subjects of a finding.
--   Grouping/Reference   the loop of materialize in investigations.py, on the rows of its run.
--   Grouping/Indexed     the loop of grouping_materializer.py: pages, edges read by the page, the
--                        private index and its eligible anchors.
--   Grouping/Materialize both materialize functions around these loops: reuse of a complete run,
--                        the completeness check, publication. The pages have as fuel the number of
--                        findings, as each page has at least one.
--   The other files of Grouping hold proofs.
--
-- Canonical follows app/engine/canonical: profiles.py, normalize.py and batch.py.
--   Canonical/Text      texts as lists of code points, and what the normaliser asks of them.
--   Canonical/Model     values of a source record, and the outcome of a reader: a value, a
--                       NormalizationError, or another exception, which ends the import. Python is a
--                       record of the library functions that are taken as they are: str.lower, the
--                       constructors of Decimal and int, the parsers of JSON and of literals, and dates.
--   Canonical/Names     CANONICAL_KEYS and the table of aliases.
--   Canonical/Profiles  mapping_for and canonicalize, on a record as an association list.
--   Canonical/Values    _optional_text, _sats, _list, _endpoint_port and _timestamp. The context of
--                       Decimal rounds to 28 digits; the fuel of the rounding is the coefficient.
--   Canonical/Facts, Normalize, Row
--                       the facts, and normalize_row in the order of its reads.
--   Renaming, Claims, Renamed, Settled, Stable and Twice prove what canonicalize does; Sound, Accepted and Exact are
--   about rows and amounts.
--
-- Ingestion follows the parsing of ingest_source in app/engine/ingestion/pipeline.py.
--   Ingestion/Model     the outcome of a row, batches, and the loop over the rows of a batch.
--   Ingestion/Store     files, receipts, checkpoint and counters: publish_batch, _commit_batch, and the
--                       attempt ingest. The SHA-256 of a file and the hash of a row are parameters.
--   Ingestion/Reference the accepted records as a function of the rows alone.
--   Worked, Receipts, Loop, Resumed, Faithful and Fresh prove that attempts that end anywhere and are
--   resumed leave what the reference says.
--
-- Graph follows _build of app/engine/graph/builder.py, and query_neighbourhood and query_flow of app/engine/graph/query.py.
--   Graph/Reach         the tables of reached nodes and of the edges at them, turn by turn.
--   Graph/Query         limits, cursors, pages and the answer. JSON, base64 and the digest of a cursor
--                       are a parameter; node ids are ordered as numbers; edge ids are a key.
--   Graph/Flow          query_flow: Model has the tables and counterparties, Sides the two flows, Query
--                       the dead ends, the ranking and the answer; Totals, DeadEnds, Ranking and
--                       Answered hold proofs. Its ids are constructors for the three kinds of id text.
--   Graph/Builder       the nodes and edges of transactions, outputs and inputs, and the coverage;
--                       Linked and Served prove what these promise to query_flow.
--   Members, Neighbours, Reached, Distance and Keys are about the tables, Offsets and Pages about a
--   client that follows the cursors, whose fuel is one more than the number of rows.
--
-- Common holds Boolean tests, searches and sorting, with their lemmas; Tests modules run the
-- definitions on small inputs.
--
-- Not modelled: floating-point scores and hashes; SQL and file formats; of ingestion the stages behind
-- the parsing; of the graph the observations, value checks and files; machine learning; the HTTP layer but
-- for the retry route.
pub mod Common
pub mod Jobs
pub mod Motifs
pub mod Grouping
pub mod Canonical
pub mod Ingestion
pub mod Graph
