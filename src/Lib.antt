-- ===== src/Lib.antt =====
-- The order book engine: limit orders are matched by price and then by time. The parts, from the
-- bottom up, with the files that model them:
-- * types.hpp of include/orderbook is Types. `rdtsc` is a parameter of matching.
-- * LinearArena and ObjectPool of include/orderbook/arena.hpp are Arena and Pool. A pointer into a
--   pool is the number of its slot; the null pointer is `none`.
-- * FlatHashMap of include/orderbook/orderbook.hpp is HashMap.
-- * IntrusiveRBTree of include/orderbook/intrusive_tree.hpp is Tree: nodes in a store, by the number
--   of the slot of the object that they are embedded in. Tree/Rotate, Insert, Remove and Walk have its
--   methods. Tree/Shape and Cells say what it is that a store holds a tree, with one place in it looked
--   at; Turn to Fixup follow the rotations and colors of `insert_fixup` from place to place, Balance,
--   Family and Height count the black nodes, Order to Sorted are about the keys, and Lookup is about the
--   methods that read. Under to Detach follow a node out of the tree, Repair and Removed the rest of
--   `remove`.
-- * Order and PriceLevel of include/orderbook/orderbook.hpp are Level: the queue of the orders at one
--   price, linked through the orders in the pool.
-- * OrderBook of include/orderbook/orderbook.hpp and src/orderbook.cpp is Book: it owns two trees of
--   levels, the map from ids to orders and the two pools. Book/State has the record, Book/Levels the
--   best levels and their creation and removal (Book/Best is about the best prices), Book/Matching the
--   matching loops (Book/Fill, Rounds and Priority are about the inner one), Book/Orders the operations
--   on orders, Book/Depth what a client reads. Book/Invariant says what a book is, and Book/Rows what a
--   client sees of it, rows of prices with their queues; Book/Side, Create, Requeue, Enqueue, Resting
--   and Accepted follow `add_order` to an order's place, Dequeue, Dismiss, RowsLeft, Leaving and Cancelled
--   `cancel_order`, Moved puts the two together for `modify_order`, and Refused has the ways in which
--   `add_order` fails.
-- * SPSCQueue of include/orderbook/spsc_queue.hpp is Spsc, which carries market data from a producer's
--   thread to a consumer's. Spsc/Steps interleaves the two threads; the atomics are taken to be
--   sequentially consistent.
-- * VWAPSignalEngine and EMASignalEngine of include/orderbook/market_data.hpp and src/market_data.cpp
--   are Signals/Vwap and Signals/Ema; MarketDataSimulator of the same files is Market, and its load_csv
--   Market/Csv.
-- * Position of include/orderbook/backtester.hpp and src/backtester.cpp is Position. Backtester of the
--   same files is Backtest: the latencies and the drawdown, Backtest/Session, which sends the messages
--   of a simulator or a replay to the book and acts on the signals, and Backtest/Strategy, the runs.
--   The arithmetic of `double` is a parameter (Double), as are random draws, `std::sort` and the
--   conversions of strings; tests put whole numbers for doubles. A conversion of a `double` to an
--   integer gives some integer.
-- A method is a function of the state, with the source's name. Its result is `Run`: a value with the
-- new state, a fault where the code has undefined behaviour (a null or dangling pointer, a signed overflow), or out of
-- fuel. A loop of the tree gets as fuel a bound that stands beside it (Tree/Memory). The inner matching
-- loop gets one more than the level's order count, since each round but the last removes the order at
-- the head; the outer one gets one more than the levels of the tree, since each round but the last
-- removes a level. The loops of the map count their probes, as in the code, and need none.
-- Unsigned integers have the width of the source, and their sums wrap where the source's do. A signed sum
-- or product that leaves `int64_t` or `__int128` is a fault: the mid price, the simulator's walk, the
-- gain of a fill and its product with the quantity, the sums of the average. The quantity of a position
-- is an integer, whose range Position/Fills gives. The bit mask of LinearArena is the 64-bit operation;
-- Arena/Mask has it as arithmetic.
-- Not modelled: printing (`dump`, `print`, `to_csv`), the frequency of the time stamp counter, main,
-- benchmarks and tests. The README's example is run in Book/Tests, and runs of the tree in Tree/Tests.
pub mod Prelude
pub mod Types
pub mod Arena
pub mod Double
pub mod Signals
pub mod Pool
pub mod HashMap
pub mod Tree
pub mod Level
pub mod Book
pub mod Spsc
pub mod Position
pub mod Market
pub mod Backtest
