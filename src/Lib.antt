-- ===== src/Lib.antt =====
-- A verification library for LogQuill, the Python package under `logquill/`: a structured logger
-- whose records pass a level test, a pipeline of plugins and a content policy before transports
-- write them, at once or on a worker thread.
--
-- A record is built by the logger (`core/logger.py`, `core/records.py`) from a call, the bound
-- context and the current span. The plugins (`plugins/`) then see it in order; each may change
-- it, drop it or raise. What is left goes to the transports, either directly or through the queue
-- of the worker (`runtime/worker.py`). Names are switched on and off by `runtime/toggle.py`. The
-- modules and the code they model:
--
-- - Base, Dict, Value: shared names, lists, tests and results of calls that raise (Base and its
--   children); `dict` and `OrderedDict` as association lists in insertion order (Dict); the
--   values of `meta` (Value).
-- - Level: `core/levels.py` (`Level`, `parse_level`) and `_map_level` of `core/handler.py`.
-- - Records: `core/records.py`. `create_record`, `parse_record` (on a mapping: `parse_mapping`),
--   and `build_llm_block` in Records/Llm; the version pattern is Records/Version, and
--   Records/Numerals is what it matches.
-- - Retry: `RetryTracker` of `tracing/retry.py`, with `opened` and `succeeded`.
-- - RateLimit: `RateLimitPlugin` of `plugins/rate_limit_plugin.py`; `before_log` is `admit` for
--   the key and the time.
-- - TailBuffer, FlightRecorder, Sampling: `plugins/flight_recorder_plugin.py` and
--   `plugins/sampling_plugin.py`. Both classes hold the same buffer, which is TailBuffer:
--   `buffer_record` is `_buffer_record`, `take_run` and `write_all` are `_flush` and `_elevate`.
-- - Worker: `AsyncWorker` of `runtime/worker.py`. Each block under the lock is an action
--   (Worker/Steps): `submit`, the two halves of a round of `_run` (`take`, `finish`), and
--   `close`. A submitter that waits is an action that is not enabled.
-- - Toggle: `runtime/toggle.py`; `parent` is `rpartition(".")[0]`.
-- - Batching: `BatchingTransport` of `transports/batching_transport.py`; `append` and `swap_out`
--   are the blocks under its lock, `store` is `write` from the buffer on.
-- - Privacy: `privacy/privacy.py`. TamperEvident: `plugins/tamper_evident_plugin.py`; Forgery and
--   Content are about what one hash tells of two logs, and the JSON text that is hashed is a
--   parameter that tells the keys of an object. Alerting: `plugins/alerting_plugin.py`. Stamps:
--   `plugins/redact_plugin.py`, `plugins/context_plugin.py`, `plugins/run_plugin.py`. RunSummary:
--   `plugins/run_summary_plugin.py`, with the totals of a run in `Stats` and its summary, entry
--   by entry, in RunSummary/Written.
-- - Logger: `_log` and `_dispatch` of `core/logger.py` (Logger), `_log` up to the plugins with
--   `resolve_lazy` of `core/opt.py` (Logger/Prepare), the methods for each level and kind
--   (Logger/Methods), and the interfaces of plugins, transports and the worker
--   (Logger/Interface), which the theorems take as instance arguments.
-- - Logger/Lifecycle: `child`, `flush` and `close` of `core/logger.py` with
--   `runtime/shutdown.py`, on loggers that share transports and a worker by reference; what the
--   calls do is a list of events. A garbage-collected logger is one that leaves the registry.
-- - TraceTree: `TraceBuilder` and `TraceNode` of `cli/trace_tree.py`. A node is a place in the
--   builder's store, as the Python lists share the node objects. TraceTree/Place and Kept count
--   where nodes stand, Parents and Placing are about what they stand under, Order is the order of
--   records that the class documents, Totals the rollups, Render the drawn tree, and Newlines and
--   Drawn are about its lines.
-- - Logfmt: `LogfmtFormatter` of `formatters/logfmt_formatter.py`, and `parse_logfmt` of
--   `parsing.py` in Logfmt/Read, whose patterns are written out as scans.
-- - Pii: `PIIRedactPlugin` of `plugins/pii_redact_plugin.py`, without Presidio; what the patterns
--   find is a parameter. Pii/Sweep and Mask are about overlapping matches, Pii/Values about
--   nested values.
-- - Logger/Opt: `opt` of `core/logger.py` with its cache. RuntimeLevel: `_apply_level` and
--   `poll_once` of `runtime/runtime_level.py`.
-- - Spans: `tracing/span.py`, `core/context.py` and `Logger.span`. A program is a block of calls,
--   and `run` sets and resets the two context variables as `__enter__`, `__exit__` and
--   `bind_context` do; Spans/Scope is the lexical reading of a program, Spans/Ordered and
--   Documented are about the order of its records, which TraceTree relies on.
-- - Rotation: `FileTransport` of `transports/file_transport.py` on a dict of files;
--   Rotation/Chunks is the list of chunks that the files are for.
-- - SemConv: `tracing/semconv.py`. `set_all` is the assignments to `attributes`, one after the
--   other. SemConv/OptIn is the choice of a convention, Specs the spans and attributes of
--   records, Names is about which names are used, Content about prompts and completions.
-- - Mcp: `tracing/mcp.py`, on TraceContext and Spans.
-- - Adaptive: `plugins/adaptive_sampling_plugin.py`. TraceContext:
--   `plugins/trace_context_plugin.py`, its patterns written out.
-- - Tests: concrete runs.
--
-- Numbers are natural numbers. Times are whole seconds, rates and draws whole millionths, and
-- floats in `meta` whole millionths. The costs that the trace tree adds up are kept as the
-- additions themselves, in their order, since floats round; the totals of RunSummary are added in
-- the order of the records. Texts are native strings, or lists of code points where the code
-- looks at characters; upper and lower case are those of ASCII. Python's `1 == True` is not
-- modelled: ids of different types are different.
--
-- Loops are structural recursion. The search through the parents of a name has one round more
-- than the name has characters as its fuel, and each parent is shorter than the name. The decimal
-- digits of a number have the number plus one as their fuel. `parse_logfmt` has the length of the
-- line as its fuel, and each round takes a character at least. `rollup` and `walk` have a depth,
-- since Python's recursion ends only on a tree.
--
-- The clock, the random draws, what a value does when it is called, tracebacks and frames,
-- SHA-256, HMAC, the JSON text of a value, and the hooks of concrete plugins and transports are
-- parameters. A hook other than `before_log` is taken not to change the record, and the
-- transports that a plugin holds are not followed back to those of the logger. Warnings that the
-- package writes to its own stdlib logger are left out.
--
-- Not modelled: the concrete transports but that of files, the adapters and instrumentation, the
-- command line and the viewer, configuration, the JSON and text formatters and `parse`, metrics;
-- of the trace tree, `to_dict`; and `epoch_ns`, which reads a date.
pub mod Base
pub mod Dict
pub mod Value
pub mod Level
pub mod Records
pub mod Retry
pub mod RateLimit
pub mod TailBuffer
pub mod FlightRecorder
pub mod Sampling
pub mod Adaptive
pub mod Worker
pub mod Toggle
pub mod TraceTree
pub mod TraceContext
pub mod SemConv
pub mod Spans
pub mod Alerting
pub mod Stamps
pub mod RunSummary
pub mod Rotation
pub mod Batching
pub mod Logfmt
pub mod Logger
pub mod Mcp
pub mod RuntimeLevel
pub mod TamperEvident
pub mod Privacy
pub mod Pii
pub mod Tests
