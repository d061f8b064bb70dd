-- ===== src/Lib.antt =====
-- A verification library for parts of the strategy engine, written in Go.
--
-- engine/seqcore is a state machine over one stream of bars. Each bar passes four phases in order:
-- P0 handles a hole between open times and the first diagnostics, P1 the Setup of each side (a run
-- of closes against the close four bars before), P2 cancels the Countdown against a Setup that
-- completed on the other side, and P3 counts, defers, completes or recycles the Countdown. Its
-- content can be saved as a checkpoint and restored. Seqcore/ models it:
--   Seqcore/Types       types.go: configuration, identity, bars, events, snapshots
--   Seqcore/Engine      core.go: the state, New, emit, and the checks that refuse a bar
--   Seqcore/Phases      core.go: the phases P0 to P3 of `step`, for one side each
--   Seqcore/Step        core.go: Step, StepAfterClosure, Run; window.go
--   Seqcore/Checkpoint  checkpoint.go: the content of a checkpoint, its validation, Restore
-- The other modules of Seqcore/ are proofs: Invariant/ and Events on one bar, Refusals and Refused
-- on errors, Run/ on streams, SetupRun on the Setup counter, Gap on holes, Restore and Closure on
-- checkpoints.
--
-- engine/frozenlevels holds causal primitives that share prices, quotes and event keys: a level that
-- is crossed and admitted once, a calendar of trading days with the opening before a decision,
-- completed windows with their pivots, and the one amendment of a position's stop. FrozenLevels/
-- models it:
--   FrozenLevels/Prices, Types     prices.go, types.go and the quotes of lock.go
--   FrozenLevels/Level/Lifecycle   level_lifecycle.go, entry_admission.go
--   FrozenLevels/Calendar          calendar.go
--   FrozenLevels/Windows, Pivots   windows.go
--   FrozenLevels/Scale, Lock       scale.go; lock.go up to Observe
--   FrozenLevels/Lock/Observe      LockTracker.Observe of lock.go
-- The other modules there are proofs: Level/Invariant, Level/Moves and Level/Calls,
-- Calendar/Before, Calendar/Order and Calendar/Prior, Windows/Causal, Pivots/Laddered,
-- Lock/Invariant, Lock/Stop and Lock/Creation. Each part has a module Tests with concrete inputs.
--
-- engine/sequential_closure_calendar.go says which holes between bars are declared closures; a bar
-- after one goes to StepAfterClosure, every other bar to Step. Closures models the validation of a
-- calendar, closureIndexFor, MatchBars and BindRoute, with the timeframes of
-- dsl/sequential_full_config.go; Closures/Declared is about what closureIndexFor finds.
--
-- engine/broker.go opens and closes positions on one series of candles: captured orders become
-- pending orders, limit orders or positions, and a bracket, the end of a slot or the end of the run
-- closes a position into a trade. Each change of the realized amount is reported to the collector of
-- engine/sequential_accounting.go, which also marks the equity at each close. Broker/ models it:
--   Broker/Types       the records of broker.go, types.go and sequential_accounting.go
--   Broker/Ledger      sequential_accounting.go: the collector
--   Broker/Execution   broker.go: openPosition, closePosition, tightenStop; resolveIntrabarExit
--   Broker/Scheduled   broker.go: fillPending, fillLimits, dispatchCaptured, runScheduled;
--                      fillPendingExits of broker_deferred_exits.go and window_close.go
-- In proofs, Exposure reduces a bar to openings while flat and closings while held, Run extends that
-- to a run; Chain is on the order of trades, Agreement, Settlement and Accounts on the collector,
-- Bracket on one bar.
--
-- engine/sequential_execution.go joins the two: on each bar its scheduler lets the broker act, gives
-- the bar to the engine of seqcore, and turns the events into opportunities, of which at most one
-- waits for a fill at the next open. Sequential/ models it:
--   Sequential/Types      sequential_types.go and the state of the scheduler
--   Sequential/Fill       fill and reject
--   Sequential/Atr        ComputeATR of contextcols/indicators.go, recentExtreme
--   Sequential/Scheduler  step, acceptEvents and checkBrokerNumbers
--   Sequential/Run        newSequentialFullScheduler and runSequentialFullWithCapture
--   Sequential/Market     sequential_market_v3.go: RunSequentialMarketV3 after the admission
-- In proofs, Waiting, Accepting and Taking are on acceptEvents, Holding on the time that a position
-- is held, Validity on a step, Start and Resolution on a run, MarketChecks on the last checks of a
-- market run, MarketRun on its loop.
--
-- engine/window.go resolves an execution window to indexes, and engine/entry_scheduler.go assigns
-- completed source decisions to chart bars; Scheduling/Window and Scheduling/Schedule model them,
-- Resolve and Causal are proofs. The entries are those that the run of the broker takes.
--
-- Prelude/ has what they share: an int64 is a natural number in excess of 2^63 with its wrap-around
-- written out (Words), a float64 is a multiple of 2^-1074, an infinity or NaN (Floats), a string is
-- a list of bytes (Texts). A pointer is an Option. Where Go would panic (a nil dereference or an
-- index out of range), a function returns the outer `none`; an error is a value beside the state.
-- Loops over slices are recursion on lists, so that no fuel is needed; the printing of a decimal
-- stops after 20 digits, which hold every number below 2^64.
--
-- Not modelled: the JSON bytes of a checkpoint and the check of their shape, the walk over the JSON
-- tokens of a calendar, the text of errors, the state and entries of strategy families in the broker,
-- partial exits, trails and the paper engine, the admission, timelines and inspection of the
-- sequential strategies, and everything outside the files named above (the strategy language, reports, the
-- commands). The decimal of a float, the float nearest to a rational, float arithmetic, SHA-256 and
-- regular expressions are parameters: LevelLibrary, ScaleLibrary, PivotLibrary, CalendarLibrary,
-- Digests, Arithmetic, and an argument of the windows. A compiler may fuse a product and a sum where
-- the code has no conversion between them; Arithmetic has no fused operation.
pub mod Prelude
pub mod Seqcore
pub mod FrozenLevels
pub mod Closures
pub mod Broker
pub mod Sequential
pub mod Scheduling
