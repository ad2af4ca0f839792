-- ===== src/Lib.antt =====
-- wasm-operator runs Kubernetes operators as WebAssembly modules in one process. The host
-- (pkg/controller) loads the modules, lets each send HTTP requests to the API server and set
-- delays, and swaps an operator that is idle out to disk, until a result arrives for it or a
-- prediction server says that one is near. Inside an operator a small library
-- (pkg/kube-runtime-abi) turns the host's results into futures. controllers/ holds the operators.
--
-- The parts, and the files that model them:
--
-- Base: shared names, lists, integers, and Outcome, what a Rust function can do: return, return an
-- error, panic, or (in the model) run out of fuel.
-- Abi: pkg/controller/src/abi/mod.rs, the host functions abi_request and abi_delay, and the data
-- of an operator's store. Abi/Ids: identifiers and bounds. Abi/Wakeup: how a result is handed
-- over. Abi/Answerable: the calls that panic, with the first poll of an operation (eager_poll).
-- Abi/OpCall: pkg/controller/src/abi/opcall.rs, an operation that is polled once when it is made.
-- Runner: pkg/controller/src/modules/runner.rs, the pending operations of an operator and the
-- results that each sends, and the loop of module.rs that polls them (Runner/Polled,
-- Runner/WebCalls). Runner/Channel: the channel of ten results between them, step by step;
-- Runner/Channel/Order, Complete, Delivery and Ends are about the order of results, and about the
-- end of operations.
-- Http: http_data.rs of both sides and request_executor.rs, over the calls of the http crate
-- (Http/Crate: parameters, with their documented behaviour). Http/Proxy follows a request to the
-- host and a response back, Http/Executor the request to the API server.
-- Wasm: pkg/controller/src/modules/wasm.rs. WasmRuntime with its methods; Wasm/Jobs, the futures
-- in wasm_work, each between one wait (for a permit of the pool, or for the write of the swap
-- file) and the next; Wasm/Wasmtime, what is used of the wasmtime crate (a parameter, Engine, with
-- its documented behaviour, IsEngine, whose last law is a condition on the operator in it);
-- Wasm/Interface, the operations that the event loop calls and their laws, IsWasm; Wasm/Machine,
-- Wasm/Admitted, Wasm/Polls and Wasm/Serves, the states of a runtime and the proof of these laws;
-- Wasm/Permits, Wasm/Balances and Wasm/Held, what a poll does with the permits of the pool.
-- Module: pkg/controller/src/modules/module.rs. Module/Resolve is resolve_async_ops,
-- Module/EventLoop is poll_event_loop, Module/Run is start with run_event_loop; they take the
-- instance as WasmOps.
-- Guest: pkg/kube-runtime-abi/src. Guest is executor.rs, Guest/Request is requestor.rs and
-- delay.rs, for one task; Guest/Many is the run of many tasks, which Guest/Many/Served joins to
-- the channel of the host; Guest/Spawner is the executor, with error.rs.
-- Runtime: pkg/controller/src/main.rs, runtime and modules/metadata.rs, from the command line and
-- the configuration file to the modules that run. Runtime/Pool: the modules side by side, as a
-- step relation over the list of their runtimes and the semaphore of POOL_SIZE permits.
-- Operators: the operators of controllers/, over the calls of the kube crate (a parameter, Api,
-- with its documented behaviour, IsApi).
--
-- State is passed explicitly. What the environment decides is an input: at each poll of an
-- instance whether the pool has a permit and the file system works (Reply), at each poll of the
-- operations which one completes with which answer (Choice), what the channel of results holds,
-- the clock, the timers, and what the prediction server answers. Machine integers wrap as in a
-- release build.
--
-- Bounds. resolve_async_ops is given as many rounds as there are pending operations and one more:
-- each round that goes on removes one. The loop of poll_event_loop, which may deliver results as
-- long as they arrive, is given one turn more than those that bring results. A read of a stream in
-- an operator is given two polls: a state holds one value. The channel of results has no fuel: its
-- runs are a relation, and each move leaves less work.
--
-- Not modelled: waits for the file system and the mutex inside a job, but for the write of the
-- swap file (the others are not told apart from the work behind them); the scheduling of tasks
-- and of operations, which the environment decides; the version and the extensions of HTTP
-- messages; the delay queue, which is a copy of that of tokio-util; the Kubernetes client, a
-- stack of layers of libraries; the set-up of the engine, of WASI and of logging; the load
-- generator for MongoDB.
pub mod Abi
pub mod Base
pub mod Guest
pub mod Http
pub mod Module
pub mod Operators
pub mod Runner
pub mod Runtime
pub mod Wasm
