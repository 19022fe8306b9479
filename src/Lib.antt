-- ===== src/Lib.antt =====
-- CISim is a cycle-level simulator of a processor with custom instructions. A core fetches dynamic
-- operations, predicts branches, dispatches into a reorder buffer and the load and store queues,
-- issues over ports, and reaches memory through caches. This library models the parts that hold state
-- and proves what makes them correct. Paths are from the repository's root.
--
-- Parts and files
--   * Tage (sim/src/tage/tage.cpp, sim/include/tage/tage.h): `PREDICTOR`. The constructor is `init`,
--     `GetPrediction` is `Predict.get_prediction`, `UpdatePredictor` is `Update.update_predictor`,
--     `updateCompHist` is `History.update_comp_hist`. A table is a function on indices.
--   * BranchPredictor (sim/src/branch_predictor.cpp): `Bpred`, with one clause of `predict_as` for
--     each type; the TAGE type calls Tage.
--   * CacheSet (sim/src/mem/FunctionalCache.cpp): one set with its doubly linked list. Nodes are
--     numbers and the pointers two functions on them. `Lru` is the abstract set, a list in order of
--     use; `Links` is about the pointers, `Rep` is the representation invariant, `View` and `Refine`
--     relate the two, `Duplicate` is about insertion of an address that is there.
--   * FunctionalCache (same source): address fields (`Fields`) and the sets (`Valid`, `Lines`,
--     `Presence`, `Start`), over CacheSet.
--   * Operation (sim/include/task/dyn_insn.h, sim/src/task/dyn_insn.cpp): dynamic operations and
--     their status. A shared pointer is a number, and `Ops` is the store of the objects.
--   * LoadStoreQueue (`LDSTQ` of sim/include/lsu.h) and LsUnit (`LSUnit` of sim/src/lsu.cpp), which
--     uses two of them: `addInstruction` is `add_instruction` of a queue and `add_to_queues` of the
--     unit, `process` is `Process.process`. The unit reaches the cache through the record `MemPort`
--     and relies on `Receives`, which a first-level cache with a bound on its ports fulfils.
--     `Working` is the invariant of a cycle, `Stores` and `Loads` are its two loops, `Cycle` joins
--     them, `Writeback` is about the answers, `Violation` about
--     `shouldFlush`.
--   * RequestOrderingUnit (sim/src/rou.cpp): a queue for each hash of unit and offset.
--   * Window (sim/src/window.cpp): dispatch window, issue queue counter and reorder buffer. It asks
--     LsUnit for `shouldFlush` and `commitInstruction`.
--   * MemTransaction (sim/include/mem/mem_transaction.h): requests. PortCount counts free ports, and
--     PriorityQueue is `std::priority_queue` as the list of its elements in the order they leave.
--   * Cache (sim/include/mem/cache.h, sim/src/mem/cache.cpp): what the levels share, from
--     `recv_request` to `handle_responses`. `FirstLevel`, `SecondLevel` and `LastLevel` are `L1Cache`,
--     `L2Cache` and `LLCache`, with `process_first`, `process_second` and `process_last` for
--     `process`. Each calls FunctionalCache for its lines. `Mshr` and `Conserve` follow the
--     transactions of a cycle, `Responses` is about what comes back, `Ports` about what is sent.
--   * SimpleDram (sim/src/mem/SimpleDRAM.cpp): requests by their last cycle, with `Serve` about its
--     cycle. DramInterface (sim/src/mem/DRAM.cpp) owns it and holds the requests that are
--     outstanding; `complete` is what SimpleDram calls back. `Served` relates the two, `Process` is
--     about the operations.
--   * Ifu (sim/src/ifu.cpp): `IF0` is `if0`, which asks the first-level cache, and `IF1` is `if1`.
--   * IssueUnit (sim/src/issue_unit.cpp, sim/include/port.h): ports and units, `Schedule` for
--     `schedule` and what it calls, `Issue` for `issue`, which uses Window and RequestOrderingUnit.
--     `Counts`, `Find`, `Uops`, `Held`, `Naive` and `Assign` are about the units and ports that an operation gets.
--   * Core (sim/src/core.cpp): the back end. `dispatch`, `issue`, `write_back` and `commit` are the
--     functions of these names, `Execute.execute_cycle` is `execute`, which reaches the accelerator
--     through the record `AccelPort` and the cache through `MemPort`. `Back` is the invariant of the
--     buffers, and `Dispatch` is about a dispatch over Window, LsUnit and RequestOrderingUnit.
--   * DyserUnit (`DyserUnit` of sim/src/accel.cpp): a data-flow unit. `Tokens`, `Start` and `Process`
--     follow its tokens.
--   * Prelude: shared tests, lists, digits of bitwise operations, `std::map` as a list in key order.
--
-- Conventions
--   * Numbers are natural numbers, with the wrap-around of a machine type written out where a value
--     can leave its width. Counters that only grow by one for each operation are not cut to 64 bits.
--   * `none` is a fault: a failed assertion, an exception of `at`, or an index out of range.
--   * The one undefined operation that the source meets on every call, the shift by 64 in `extract`,
--     takes its result `over` from the caller; the theorems hold for 0 and for 1.
--   * `rand() % 100` of the TAGE predictor is an argument.
--   * A pointer to an object that other parts change is a number or a place in a list; a pointer to
--     one that stays as it is, a transaction, is the object. The caches that an operation reaches
--     through pointers are arguments and results.
--   * -1 for ports without a bound is `none`. A count of free ports below 0 is like 0, since the
--     source asks only whether one is above 0.
--   * What memory holds where the source does not initialise a field is the argument `junk`.
--   * Two transactions of one cycle leave a priority queue in an order that the library leaves open:
--     the argument `ahead` decides.
--   * `uid`, `demand` and `info` give what static instructions and their configuration say of an operation.
--
-- Loops and fuel
--   Loops over lists are structural recursion. `log2` takes its argument as fuel, which is more than
--   the number of halvings. The retirement loop of Window runs for `retireSize` rounds, or one where
--   that is 0, which is where the source leaves it at the latest.
--
-- Not modelled
--   The fetch and the cycle of the core and the class `Accelerator` are not modelled. Traces, LLVM modules, configuration,
--   statistics and reports are I/O or calls of other libraries; so are the passes in llvm and the
--   adaptor in custom_adaptor. The pattern detection of the first level is compiled out.
--   DRAMSim2 is another project's code, and the source never creates an object of it: where it would
--   call one, the model has a fault.
pub mod Prelude
pub mod Tage
pub mod BranchPredictor
pub mod PriorityQueue
pub mod MemTransaction
pub mod PortCount
pub mod CacheSet
pub mod FunctionalCache
pub mod SimpleDram
pub mod DramInterface
pub mod Cache
pub mod Operation
pub mod LoadStoreQueue
pub mod LsUnit
pub mod RequestOrderingUnit
pub mod Window
pub mod Ifu
pub mod IssueUnit
pub mod Core
pub mod DyserUnit
