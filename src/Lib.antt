-- ===== src/Lib.antt =====
-- Nestra: the cutting optimisers of the backend.
--
-- The optimisers take a demand (pieces with a quantity) and a stock (bars or sheets with a number of
-- units), and return which piece is cut from which unit of stock, at which place, and which pieces
-- could not be cut. The workers and the optimisation service call them; they call nothing. Beside
-- them stand the status machine of the optimisation module and the rate limiters of the core.
--
-- Files, with the code of backend/src/algorithms (where no other path stands) that each is about:
--   Pieces        core/piece-expander.ts and the piece types of core/types.ts: expand1DPieces,
--                 expand2DPieces and the two sorts. Pieces/Expansion, Panels: what the expansion
--                 counts.
--   Stock         core/stock-manager.ts: Stock1DManager and Stock2DManager with findAvailableStock,
--                 consumeStock and getRemaining. Stock/Setup and SheetBudget: the constructors.
--                 Stock/Budget and Sheets: what the queries and consumeStock guarantee.
--   Bars          1d/bin-manager.ts: createActiveBar, canFitInBar, placePieceInBar,
--                 findFirstFitBar, findBestFitBar, calculateUsableWaste. Bars/Plan: well-formed
--                 bars. Bars/Choice: the contract of the two selection functions.
--   Unplaced1d    1d/unplaced-collector.ts. Unplaced1d/Totals: what the collector counts.
--   Statistics    core/statistics-calculator.ts. Statistics/Balance: its sums.
--   Fill1d        the loop that 1d/ffd-algorithm.ts and 1d/bfd-algorithm.ts share, with the
--                 selection of the bar as an argument. Fill1d/Plans, Accounts, Budgets, Leftovers:
--                 its invariants.
--   Optimize1d    firstFitDecreasing and bestFitDecreasing of these files, 1d/result-builder.ts and
--                 1d/optimizer.ts. Optimize1d/Safety, Supply, Totals, Report: what a result
--                 promises.
--   Cutting1d     1d/cutting1d.ts, the optimiser in one file that the workers call.
--                 Cutting1d/Agreement, Plans: its comparison with Optimize1d. Cutting1d/Offcuts: its
--                 offcuts.
--   Geometry      2d/geometry.ts: rectangles, orientations and candidate positions.
--                 Geometry/Overlap: what the overlap test means. Geometry/Separation: rectangles
--                 that a blade can part. Geometry/Turns: the orientations.
--   Sheets        the sheet types of core/types.ts and, of 2d/sheet-manager.ts, createActiveSheet,
--                 canPlaceAt, findBottomLeftPosition and tryPlaceBottomLeft. Sheets/BottomLeft: its
--                 invariants.
--   Guillotine    the rest of 2d/sheet-manager.ts: createGuillotineSheet, findBestGuillotineFit,
--                 splitFreeRectangle and tryPlaceGuillotine. Guillotine/BestFit, Regions, Layout:
--                 its invariants.
--   FreeRects     2d/free-rect-manager.ts: merging, pruning and splitting of free rectangles.
--                 FreeRects/Merging and FreeRects/Splitting: what they keep.
--   Unplaced2d    2d/unplaced-collector.ts.
--   Fill2d        the loop that 2d/bottom-left-algorithm.ts and 2d/guillotine-algorithm.ts share,
--                 with the way of placing a piece and of making a sheet as an argument.
--                 Fill2d/Invariant, Accounts, Budgets: its invariants.
--   Optimize2d    bottomLeftFill and guillotineCutting of these files, 2d/result-builder.ts,
--                 2d/optimizer.ts and the sheet half of core/statistics-calculator.ts.
--                 Optimize2d/Layout, Supply, Totals, Turning, Sideways: what a result promises.
--   Grained       the pieces of 2d/cutting2d.ts and 2d/enhanced-optimizer.ts, which carry a grain.
--   Packing       the loop that these two files share, with its three calls as an argument.
--                 Packing/Invariant, Totals, Written: what it keeps and counts.
--   Cutting2d     2d/cutting2d.ts, the optimiser in one file that the workers call, but for its
--                 dispatcher. Cutting2d/Placing: how it places a piece in a sheet in use.
--                 Cutting2d/Report: its result. Cutting2d/Agreement: its comparison with Sheets and
--                 Guillotine. Cutting2d/Sheet, Totals, Balance, Places, Results: what a result
--                 promises.
--   MaxRects      2d/maxrects-algorithm.ts. MaxRects/Search: scores and candidates.
--                 MaxRects/Choice, Candidate, Clearance, Sheet: the candidates, the free
--                 rectangles, the sheets.
--   Enhanced      2d/enhanced-optimizer.ts and the dispatcher optimize2D of 2d/cutting2d.ts, which
--                 calls it. Enhanced/Orders: options, orders and stock. Enhanced/Places, Totals,
--                 Contract: what a result promises. Enhanced/Faults: where it fails.
--   Statuses      backend/src/modules/optimization/status-machine.ts: the statuses of scenarios and
--                 plans; no other file of the backend calls it. Statuses/Table: the table of a
--                 machine. Statuses/Plans: the life of a plan.
--   RateLimit     backend/src/core/rate-limit/storage.ts, the storage in memory.
--                 RateLimit/SlidingWindow: sliding-window.ts. RateLimit/TokenBucket:
--                 token-bucket.ts. RateLimit/Bounds, Requests: series of requests.
--   Prelude       shared notation, lists, finite maps, integers and stable insertion sorts.
--
-- How the code is rendered. A `Map` with string keys is a list of pairs in the order of insertion, as
-- JavaScript iterates it (Prelude/Dict). The arrays that the code pushes to and the objects that it
-- writes to are passed on as values: no two names of one run share a bar, a sheet or an entry, since
-- every such object is built in the run and reached through one array. `Array.prototype.sort` is
-- stable, and is a stable insertion sort here. Every loop is over an array, and structural
-- recursion, but for one (below). A length or a coordinate is a natural number: the code uses doubles,
-- and its integer inputs below 2^53 are computed exactly. `a - b` of the code is written with ℕ
-- where a guard of the code makes it non-negative, and with ℤ where none does. A percentage, the
-- quotient of two totals and 100, is kept as the pair of its totals, since the code only reports it.
--
-- `mergeFreeRectangles` has a bound of 100 rounds in the code, kept here as it is. The waste of a
-- sheet is an integer, since no test of the code keeps it from being negative.
--
-- The scores of MAXRECTS are integers; those of its heuristic BEST are scaled by 10000, so that the
-- weights 0.5, 0.3 and 0.0001 are whole. Quotients that the code compares are multiplied out. Where
-- the code holds on to an object of an array, the model holds its index.
--
-- A clock is an argument, and the random ids of the sliding window are a function that is one.
--
-- Not modelled: the fixed window, the Redis storage and the middleware of the rate limiter; the
-- multiPass block of 2d/enhanced-optimizer.ts, which moves no piece; the other service modules, the
-- HTTP layer, persistence, messaging and caching around the optimisers, the ML models, and the
-- tables of algorithm names and descriptions, which hold no logic.
pub mod Prelude
pub mod Pieces
pub mod Stock
pub mod Bars
pub mod Unplaced1d
pub mod Statistics
pub mod Fill1d
pub mod Optimize1d
pub mod Cutting1d
pub mod Geometry
pub mod Sheets
pub mod Guillotine
pub mod FreeRects
pub mod Unplaced2d
pub mod Fill2d
pub mod Optimize2d
pub mod Grained
pub mod Packing
pub mod Cutting2d
pub mod MaxRects
pub mod Enhanced
pub mod Statuses
pub mod RateLimit
