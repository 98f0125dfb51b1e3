-- ===== src/Lib.antt =====
-- go-kitbox: a verification library beside the Go packages under pkg/.
--
-- The packages are a toolbox without a main program: each stands for itself, and the ones modelled
-- here meet in two places. fillp, a reliable transport over UDP, keeps its bytes in ring buffers, its
-- unacknowledged packets in a retransmission queue, and may take its window from a controller of
-- congestion. taskpool feeds its workers from a ring queue, or from one for each range of priorities.
--
-- Prelude             shared names; Run (value, error or panic of a Go call), Maps (Go maps), Window (the
--                     live slots of a ring), Int (ints that may be negative), Keys, Lists, Tests
-- Fillp.RingBuffer    pkg/fillp/buffer.go, RingBuffer: write = Write, read = Read, peek = Peek,
--                     unread = Unread and so on; a loop of a method is the `_loop` beside it. Fifo is
--                     the bounded queue of bytes that it is compared with
-- Fillp.Packet        pkg/fillp/connection.go, encodePacket and decodePacket
-- Fillp.Sending       pkg/fillp/connection.go, fragmentData, updateCongestionWindow, updateRTT
-- Fillp.Retransmission pkg/fillp/buffer.go, RetransmissionQueue
-- Taskpool.RingQueue  pkg/taskpool/queue.go, RingQueue; Spec is the queue that it is compared with
-- Taskpool.PriorityRingQueue  pkg/taskpool/priority_queue.go
-- Statemachine.Rules  pkg/statemachine/types.go, transition.go, errors.go
-- Statemachine.Fsm    pkg/statemachine/fsm.go
-- Statemachine.Hsm    pkg/statemachine/hsm.go
-- Congestion          pkg/congestion: Base (controller.go), Reno, Vegas, Cubic, Bbr; Interface is the
--                     Go interface Controller with its law, and Runs fills it for the four algorithms
-- Timer.Manager       pkg/timer/timer.go, Manager; a channel is a number, and `closed` lists those that
--                     were closed
-- Timer.Retry, Timer.Throttle  pkg/timer/timer.go, Retry, ExponentialBackoff, Throttle and Debounce
-- Zallocrout.Paths    pkg/zallocrout/preprocess.go, needsNormalization, normalizePathBytes and
--                     splitPathToCompressedSegs; Segments has the paths that they are compared with
-- Zallocrout.Routes   pkg/zallocrout/preprocess.go, validateRoute
-- Zallocrout.Tree     pkg/zallocrout/node.go, with the loops of AddRoute (add_segs) and Match (walk)
-- Zallocrout.Cache    pkg/zallocrout/cache.go, the hot cache; Metrics is metrics.go, Context context.go
-- Zallocrout.Router   pkg/zallocrout/router.go, AddRoute and Match: find_route is what Match does without
--                     its cache, match_route the whole of it. Registered has the list of routes that the
--                     trees are compared with, Cached and Stale what the cache does to the answers
-- Lifecycle.Hooks     pkg/lifecycle/hook.go and worker.go
-- Lifecycle.Manager   pkg/lifecycle/manager.go: the parts of a call between two locks, and the steps of the
--                     goroutines; Runs interleaves them in any order, and Roster has the
--                     workers by the history of the calls
--
-- State is passed on explicitly: a method takes the record and returns it. A method that holds its
-- mutex throughout is one step. A call that waits on a condition variable is one attempt, which ends in
-- `waits`, and is tried again when it is woken; an interleaving of goroutines is a list of attempts. A
-- callback of a state machine is any function on an outside world, and time is an argument.
--
-- Numbers are natural where the code never goes below zero, and integers of two halves otherwise; a
-- uint32 wraps where the code adds to it. float64 is a parameter (Congestion.Float) of which nothing
-- is assumed. Fuel: the loops along the parents of an Hsm take it, since they do not end on a cycle;
-- more than the rank of each state is enough. The loop of fragmentData takes it, since it does not end
-- with a window of 0; the length of the data is enough otherwise. The loop of normalizePathBytes takes
-- one more than the length of the path, which is enough.
--
-- The router takes as arguments the hash of the hot cache (wyhash), the time of a store, and the index
-- of the local counter, which the code takes from the address of a variable; nothing is assumed of them.
-- Its maps of children are lists, and a node is a value that only the tree of its method holds. Slices
-- that share an array are copied here: a route with middlewares that is added for a node overwrites, in
-- the code, those of the answers that Match gave before.
--
-- Not modelled: the sockets, goroutines, timers and handshake of fillp's Connection, and the workers
-- and scaling of taskpool, since they wait for the network, the clock and each other; the goroutines of
-- timer beyond the calls that they make; the concurrent, asynchronous and persistent state machines; the
-- object pools, the rate of cache hits and the interleavings of zallocrout; the options of lifecycle and
-- the registration of its hooks; and the packages binpack (reflection), bytesconv (unsafe conversions),
-- config, logger and netconn (I/O and third-party libraries).
pub mod Prelude
pub mod Fillp
pub mod Taskpool
pub mod Statemachine
pub mod Congestion
pub mod Timer
pub mod Zallocrout
pub mod Lifecycle
