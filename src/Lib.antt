-- ===== src/Lib.antt =====
-- A verification library for the core logic of the migration tools.
--
-- The tools move accounts, keys, routes and session archives from a CPA installation to the token
-- center. Their common base is a strict JSON parser; a supervisor runs probes against the source
-- system within a time budget; and a route parser decides, from the source configuration, the
-- accounts and a snapshot of the models registered, which accounts can serve a route. Another tool
-- grants the keys of the token center the routes that a reviewed mapping names for the grants of
-- the source's policies, and another stages the protected files that the tools read.
--
-- Common models nothing of the repository: Boolean tests on the native numbers, lists, texts as
-- lists of UTF-16 code units, and results that are a value or an error that the code throws.
--
-- Json models ops/lib/strict-json.ts. The cursor of the parser is the text behind it, and a
-- parsing function returns its value with this text. Json.Strings is `whitespace` and `string`,
-- with what `JSON.parse` does on the escaped literal written out; Json.Number is the regular
-- expression of numbers; Json.Parser is `value` and `parseStrictJson`. An object is the list of
-- its members in source order. A number with a fraction or an exponent stays the text read, and
-- `is_finite` is a parameter that says whether its double is finite. The loops run on fuel, one
-- more than the length of the text, since each round reads a unit at least; Json.Progress shows
-- that it never runs out. Json.Print is a printer, which the source does not have, to state round
-- trips with.
--
-- Probe models ops/inspection/cpa-work-probe-budget.ts (Probe.Observation: `validateBudgets` and
-- what an observation holds; Probe.Budget: `timestamp`, `probeBudget`, `cleanupDeadline`) and
-- `superviseProbe` of ops/inspection/cpa-work-probe-lifecycle.ts (Probe.Lifecycle). `Date.parse`
-- and `toISOString` are the parameters `parse_date` and `to_iso`; times are whole milliseconds since
-- the epoch, so that neither fractions nor times before it are represented. An
-- environment is the script of what the process, the cleanup and the clock answer, calls that
-- throw included; the supervisor returns the actions it took, in order, with its result. The
-- adapter that makes a child process look like that is not modelled. Checks by `typeof` are the
-- types of the model.
--
-- Routes models ops/legacy-routes/cpa-managed-codex-route-parser.ts, from
-- `inspectManagedCodexRouteModels` down: Routes.Strings holds the string methods that the code
-- calls, Routes.Schema its readers of untyped values, Routes.Wildcard `wildcard`, `resolveAlias`,
-- `authPrefix` and `authGroups`, Routes.Regexp `literalGoRegexp`, Routes.Config
-- `configInspection`, Routes.Auths `snapshotModels` and `inspectAuths`, Routes.Serve `coordinate`,
-- `authCanServe` and the loop over the coordinates, Routes.Material the candidate sets and the
-- snapshot document. The untyped values are those of Json; the YAML document is the value that the
-- YAML parser returns, or none where it refuses the file. `toLowerCase` is the parameter `lower`,
-- and the stable identity of an account's path, an HMAC, the parameter `stable_id`. `sort` is
-- insertion sort, which is stable as `sort` is. All loops are structural recursion on the list
-- walked.
--
-- Acts has the computations of the tools that act on something outside: a function of a state to a
-- result and the state after it, with what `try`, `catch` and `finally` do.
--
-- Stream models ops/lib/cpa-stream.ts and ops/lib/cpa-stream-observation.ts. Stream.Profiles has
-- the plans, the profiles and what is computed from them, Stream.Failures `safeFailure`,
-- `safeFailureDetails`, `trackSocket` and `timeoutError`, Stream.Identity `validateIdentity` and
-- `authorize`. A wire is the bytes pending and the parts that the iterator of the socket still
-- yields: Stream.Wire has `take`, `eof` and both directions of `frame`. Stream.Sender is
-- `sendFile` with the checks it calls; what it meets (the time, the reads, the stats) is a record,
-- Source, and what it does is the bytes it writes. Stream.Receiver has `receiveFile` from the
-- ready message to the end of the stream, Stream.Verify `verifyDestination`, and
-- Stream.Destination the whole of `receiveFile`, with the checks before and the publication after,
-- over the calls of `node:fs/promises` as functions on a state. The loops run on fuel, one more
-- than the size of the file, which suffices since each round brings a byte at least (Stream.Ends).
-- The digest is the parameter `digest`, and Surroundings says when the signal is aborted and when
-- a write to the file writes nothing; a write of the receiver to the file or to the socket that
-- throws is not modelled. Stream.Observation has `selectSegmentedPod` and
-- `confirmedSegmentedBytes`.
--
-- Stage models ops/ci/stage-protected-inputs.ts. Stage.Args is `parseArguments`: the loop over the
-- arguments is split into what an argument asks for (Stage.Options) and what the round then does;
-- it runs on fuel, the number of the arguments, which suffices since each round takes one at least
-- (Stage.Ends). Stage.System has the calls of `node:fs` and `node:path`, as parameters on a state,
-- and the checks of a stat; Stage.Copy is `openSource` and `copyProtectedFile`, Stage.Tree
-- `copyAuthTree`, Stage.Main `fenceCheckpoint`, `main` and the exit. The loop over the source's
-- bytes runs on fuel, two rounds more than the bytes allowed, the loop that writes a buffer on the
-- buffer's length (the code repeats a write that answers 0, where the model runs out of fuel if
-- this goes on), and the walk over a tree on a depth, which the length of a path bounds.
--
-- Policy models ops/legacy-policy/import-cpa-key-policy.ts. Policy.Schema has the readers of
-- untyped values, Policy.Parse and Policy.Documents those of the three documents, Policy.Plan and
-- Policy.Build `buildPlan`, Policy.Answers `liveRoute`, `routing` and `loadCheckpoint`, and
-- Policy.Execute `executePlan`, and Policy.Main their composition in `main`. A computation that
-- calls the target is a function of the target's state to a result and the state after it
-- (Policy.Act), and the client is the two such functions `read` and `put`; what the import relies
-- on of them is Policy.Honest. `toLowerCase` is `lower`, `localeCompare` is `before`,
-- `encodeURIComponent` is `encode`, and the decoder of UTF-8, the digest and the value of a number
-- with a fraction or an exponent are the parameters `decode`, `sha` and `whole`.
--
-- Not modelled: processes and databases, HTTP; the SQL, Rust and Go parts; of
-- ops/lib/cpa-stream.ts the throttle, the progress lines, the receiver's trace, `loadIdentity`,
-- and the sockets, servers and timers of `runReader` and `startReceiver`; and the other TypeScript
-- tools.
pub mod Common
pub mod Acts
pub mod Json
pub mod Probe
pub mod Routes
pub mod Stream
pub mod Stage
pub mod Policy
