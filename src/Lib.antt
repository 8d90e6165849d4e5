-- ===== src/Lib.antt =====
-- Verification of the control plane of Cogentrex, an agent runtime: the parts that decide what a
-- model call may cost, whether it is made at all, and whether a tool runs.
--
-- How the parts interact. A tool call is first put to the rules of the policy (Policy); the
-- graduated evaluator (Permissions) is another gate, whose mode changes with denials. Before a
-- model call the runtime quotes it (Pricing), reserves the quote in the accounts of the project and
-- the run (Budget), marks the charge dispatched, makes the call behind a circuit breaker (Breaker),
-- and reconciles the charge with the price of the reported usage (Pricing again). Charges that are
-- left over are released or become indeterminate. Before a tool acts on the outside, the executor
-- reserves the effect (Effects), and afterwards it commits the effect, fails it, or marks it
-- indeterminate.
--
-- Which file models what.
-- - Prelude: shared names; Prelude/Tables is a table as a list of rows, with SELECT, UPDATE ...
--   WHERE and its row count.
-- - Budget: backend/app/services/monetary_budget.py over the rows of
--   backend/app/services/db_store.py. Rows has the tables and errors, Ids the checks of arguments,
--   Transitions mark_dispatched, mark_indeterminate, release, get and summary, Opening open_run,
--   Reserving reserve_call, Reconciling reconcile, Recovery recover_stale. Invariant states the
--   accounting invariant; Moves, Settle, Balance, Updates, Outcomes, Preserve, Accept and Reserve
--   are its proof, Log the sequences of calls, Stale, Settles and Sweep the loop of
--   recover_stale; Lifecycle, Progress, History, Duplicates and Quotes are about what becomes of
--   one charge.
-- - Pricing: backend/app/observability/cost_tracker.py, the price table, validated_pricing_pair,
--   price_model_usage_nusd and quote_model_call_nusd. Pairs, Corners, Covers and Dominance are its
--   lemmas.
-- - Breaker: backend/app/security/circuit_breaker.py. `admit` is the first locked block of `call`,
--   `finish` what follows the protected function; System interleaves the calls in flight; Invariant,
--   Laws and Probes have the theorems.
-- - Effects: Rows and Repository are backend/app/services/effect_ledger.py over the table effects of
--   backend/app/services/db_store.py; Executor is `execute` of
--   backend/app/runtime/effect_executor.py as a step relation over many tasks, with
--   `_cancellation_resistant` of backend/app/runtime/monetary_budget.py around each repository
--   call. Tables, Counts, Starts, Later, Final, Ends, Truth and Ranks are its lemmas.
-- - Policy: backend/app/security/policy.py, `RulePolicyEngine.evaluate` with `_resource_matches` and
--   `_specificity`. Selection has the lemmas on filters and maxima, Laws the decisions.
-- - Permissions: backend/app/security/graduated_permissions.py, the modes, `evaluate` and the
--   transformation of the mode after denials. Guards is about what an allowed call cannot hold, Laws
--   and Loosening about denials.
-- - RateLimiter: backend/app/security/rate_limiter.py, `check` over the local store; Redis has the
--   script, the fallback transaction and `_check_redis`. Windows, History and Agreement lead to the
--   limiter that remembers everything; Refinement, Bound, Retry and Redis/Agreement have the theorems.
-- - Ledger: backend/app/services/run_ledger.py over the tables runs, runtime_events, conversations,
--   messages, run_checkpoints and fork_drafts of backend/app/services/db_store.py. Rows has the
--   tables, Payload the allow-list, Runs ensure_run, ensure_child_run, get and finalize_metadata,
--   Append, Fork, Prune and Events the methods of these names; Exports is `_all_events` of
--   backend/app/services/run_exports.py. Log has the sequences of calls; Invariant, Allocation,
--   Deletion and the Preserve modules are about the numbering of events, Final, Ended and Outcome
--   about a run that has ended, Counting, Stale and Retention about the retention, Paging, Takes,
--   Turns and Reading about the pages.
-- - Compaction: backend/app/services/multi_layer_compact.py. Messages has the data and the slices,
--   Layers the three layers, Pipeline the loop and `multi_layer_compact`; Laws and Recent have the
--   theorems.
-- - Batch: backend/app/tools/concurrency.py, `classify_tool` and `execute_tool_batch`. A batch is a
--   state that a list of events takes on: a task begins or ends, the batch goes on, the serial call
--   ends. An event that cannot happen leaves it. Laws is about what runs at once, Results about what is
--   returned, Completion about the end.
--
-- How the code is read.
-- - A repository method is the transaction it opens, and transactions are serialised: a method
--   takes the tables and returns its result and the tables that it leaves; one that rolls back
--   returns the tables it was given. An UPDATE ... WHERE is a map over the matching rows with the
--   number of rows it matched. A project's and a run's row are found by primary key, a charge by its
--   columns, in insertion order. The primary key and the unique constraint of model_charges are
--   checked by the insert; the CHECK constraints are not executed.
-- - The log of repository calls gives recover_stale by its transactions, one for each candidate, so
--   other calls may come between them. The order of the candidates (the database's ORDER BY) and
--   the clock are parameters of recover_stale.
-- - Numbers are naturals: a negative count, which the code refuses, cannot be written. Upper bounds
--   (2^63 - 1) are tested as in the code. Times are naturals, identifiers are texts.
-- - Rates are whole tenths of a nano-dollar per token, which the published rates are exactly; the
--   code computes with Decimal. casefold is modelled on ASCII, which is all that the repository's
--   identifiers admit.
-- - A repository call of the executor ends as it should, or with a database error before or after
--   its commit, and its task may be cancelled meanwhile. The identity of an effect (an HMAC) and the
--   evidence of an output (a SHA-256 hash and a size) are given.
-- - The policy's rules and requests are canonical already: the Unicode and IDNA libraries that make
--   them so are not modelled. A frozenset of risk classes is a list, read by membership only.
-- - In Permissions `str` of a container and `str.lower` are parameters, and the texts of the reasons
--   are left out.
-- - The limiter's clock has whole ticks, a number of them a second. Redis' sorted sets are an
--   interface with the laws that Redis documents. What EXEC
--   meets in each pass of the fallback, nothing or the bucket that another client left, is a function
--   of the pass. The code does not bound its loop: the model takes a number of passes, after which
--   it is still running.
-- - The ledger's floats are naturals, and its JSON columns hold what the text stands for, but for an
--   event's payload, whose text json.dumps and json.loads (parameters) make and read. The foreign key
--   of a parent run is RESTRICT and refuses a deletion, as both databases do, each in its time.
-- - A message has the keys that the compaction reads, with the others aside. Its loop is counted down
--   from max_compaction_cycles, which is its fuel in the code too. The token count, the summarizer
--   (backend/app/memory/advanced.py), the hash and `str.strip` are parameters, of which nothing is
--   assumed; the threshold is given in percent.
-- - A batch's executor is not a parameter: what it returns or raises is in the events, whatever they
--   are. A batch is not cancelled from outside.
-- - Recursion is structural but for the loop of `_all_events`, whose fuel is one more than the events
--   it may gather; every turn but the last gathers at least one. What each of its reads finds is a
--   function of the read. The depth of 5 to which Permissions scans
--   arguments is the code's own.
--
-- Not modelled: the pagination of the budget's list, CostTracker (floating-point reporting), the
-- engine, routes, adapters, storage of documents and memory, and the frontend: they call services
-- and libraries and decide none of the above.
pub mod Prelude
pub mod Breaker
pub mod Pricing
pub mod Budget
pub mod Effects
pub mod Policy
pub mod Permissions
pub mod RateLimiter
pub mod Ledger
pub mod Compaction
pub mod Batch
