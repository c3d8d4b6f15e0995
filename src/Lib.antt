-- ===== src/Lib.antt =====
-- The detectors of the ATDD extension hub.
--
-- A detector is a script that a provider starts with its scan roots, its exclusions and the path of
-- a report in the environment. It walks the roots, reads each source file as text, looks for what
-- breaks its rule and writes a report of violations. The library models detectors of two
-- providers, official/convex.workspace.runtime and official/atdd.workspace.bun.
--
-- Convex.Complexity: implementations/convex_complexity_detector/checks/convex_complexity_*.mjs of
-- the Convex provider. The five scripts (cyclomatic, cognitive, length, nesting, params) share all
-- but `evaluate` and their rule, so the shared part is modelled once.
--   Mask: `maskSource`, with its array of characters, its state and its stack of template
--     substitutions. Mask.Scan has the same as one pass, Mask.Laws what it keeps.
--   LineIndex: `buildLineIndex` and the binary search `lineOf`.
--   Brackets: `matchBrace`, `matchParenFwd`, `matchParenBack`. Words: `prevWord`, `nameBefore`,
--     `countParams`.
--   Functions: `extractFunctions`; `record_function` is its inner `record`, `declaration_step` and
--     `arrow_step` are the rounds of its loops, `sort_by_line` is its stable sort.
--   Metrics: `bodyLoc`, `cyclomatic`, `classifyBrace`, `analyzeBlocks`. Checks: the `evaluate`
--     functions.
--   Scan: `parseJsonEnv`, `isExcluded`, `walk` and `main`. Its `write_file`, with the lemmas of
--     Scan.Write, is the writing of the report in all detectors.
-- Convex.Interlocking: implementations/convex_interlocking_binding/detect.mjs of the Convex provider
-- and its checks/interlocking_runtime_executes.mjs, which `main` runs over the same roots.
--   Text: `maskComments`, `lineOfIndex`, `lineAt`. Tree: `walkDirs`, `walkFiles`,
--     `findConsumerRoots` and the lists of files. Patterns: the regular expressions.
--   Plan: `parseInterlocking`; `read_routes` and `read_entrypoint` are its loops over the lines.
--   Journey: `parseJourneyMap`, whose object is a list of entries, and
--     `runtimeResolutionLiterals`.
--   Space: what `scanConsumerRoot` reads. Scan: its checks on declarations, runtime and traces,
--     and their order. Station: its checks on the Station Master. Message: `mk`.
--   Modules: `walk` and `findConsumerRoots` of the second script. Imports: `loadsWithImports`.
--     Executes: `declaredValues`, its `maskComments` and `scanExecution`.
--   Run: `main`, which gives both to the report. Run.Reports says what a report holds, Run.Throws
--     when there is none; Tree.Blocked says of a file tree when a walk of it throws.
-- Convex.Infrastructure: implementations/convex_interlocking_infrastructure of the Convex provider.
--   Tree, Runner and Uses: _shared/interlocking.mjs; what it has in the same words as the binding
--     detector is taken from there. Rules: the bodies of checks/*.mjs. Run: their loops, which are
--     the same in all of them, and `writeReport`, which comes after the scan. Family: detect.mjs,
--     which runs each script with a report of its own and merges what it finds of them.
-- Convex.Coverage: implementations/convex_interlocking_coverage of the Convex provider.
--   Plan: `parseInterlocking` with categories, and what a script reads. Tokens: the patterns and
--     the searches of _shared/interlocking.mjs. Rules: the bodies of the scripts. Run: their loops.
--     Sequence: `scanExecution` of checks/interlocking_train_sequence.mjs.
-- Bun: lib and implementations/bun_ts_metrics_detector of the Bun provider.
--   Scan: `maskLiteralsAndComments` and `locate` of lib/scan.mjs. Walk: its `walk` and `walkByName`.
--   Graph: `reachableFrom` and `reverseGraph` of ts_metrics.mjs, on the map of imports.
--   DeadCode: `resolveImport`, `isRootFile`, `isTestFile`, and checks/ts_dead_code.mjs for the
--     files of one root; DeadCode.Run has its loop over the roots and `emit`. Bun's parser and
--     node:path's `resolve` and `dirname` are a record of functions, `Host`, of which nothing is
--     assumed.
--   Braces: `findOpeningBrace`, `matchBraces` and `countCodeLines` of ts_metrics.mjs. Tags:
--     `enclosingTag` and `templateLiterals` of lib/scan.mjs.
-- Regex: the regular expressions of the scripts, on a matcher that backtracks in the order of the
-- language's semantics, for the operators that they use: classes, greedy and lazy repetition,
--   groups, anchors, word boundaries and one character of look-ahead or look-behind.
-- Base: lists, texts, integers and paths that all parts share; Base.Join has `normalize`, `join` and
--   `resolve` of node:path on POSIX, which all walks use for their paths. Tests: runs on small
--   inputs.
--
-- A text is the list of its UTF-16 code units. Offsets and counts are natural numbers; depths that
-- can fall below zero are integers. An offset of -1 for "nothing found" is `none`; an offset that
-- a loop counts down is one more than in the scripts, so that -1 is 0.
-- Fuel: `mask_loop` is given the length of the text, and each round moves on by one place at least;
-- `search` is given the size of the index, and each round halves what is left of it.
-- `mask_rounds` and `templates_loop` are given the length of the text. `reach_loop` is given the
-- number of roots and of edges: a round takes one file off the queue, and a file's edges are pushed
-- once. The loops of the other parts are recursion on a text, a list of lines or a tree.
-- The file tree is a value that does not change during a run, and its directories are finite. The
-- interlocking scripts also look up paths, so to them the file system is a function from paths.
-- A `readdirSync` that throws outside a `try` is `none`, and ends the run as `crashed`. Which paths
-- `writeFileSync` can write is a function of the environment, `writable`; `write_file` ends a run
-- with its report, or as `crashed` where that fails. In Family the listing of checks/ and the
-- temporary directory are parameters, `none` where the call throws, and a script that cannot write
-- its own report adds nothing.
--
-- Not modelled: the entry points of single checks that a whole detector also runs, and of the
-- coverage scripts the detect.mjs that merges them; the text of the report (JSON) and the messages
-- on stderr; symbolic links that make a cycle; locale; the parsing of the environment's JSON, which
-- is a value of four forms; of the object that `parseJourneyMap` fills, the order of integer-like
-- keys and inherited names; names in `loadsWithImports` that hold characters with a meaning in a
-- regular expression, but for `$`, and actions that do in the pattern for the line of an action.
pub mod Base
pub mod Regex
pub mod Convex
pub mod Bun
mod Tests
