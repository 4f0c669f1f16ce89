-- ===== src/Lib.antt =====
-- A verification library for inet-forth, a forth-like language for interaction nets.
--
-- A program is text that is lexed to tokens and compiled to functions, arrays of opcodes. A worker runs
-- functions on a value stack and a return stack. Applying a node constructor makes a node and wires it
-- to values on the stack; joining two principal wires makes an active pair, for which a rule may give a
-- task; handling a task takes both nodes apart and runs the rule's function. Tasks are handled by one
-- worker or shared by several that steal from one another.
--
-- The modules and the code (paths from the repository's root):
-- Base: names, Boolean tests, lists, results and finite sums that the modules share.
-- Value: src/value, the tagged words (xint, xfloat, xbool, xobject).
-- Std: src/packages/std, the array (array/array.c), the stack over it (stack/stack.c) and the bounded
--   queue of one producer and one consumer (queue/queue.c), the chained hash table (hash/hash.c), the
--   doubly linked list (list/list.c) and the deque over it (deque/deque.c).
--   Std/CString: string/string.c; Std/Utf8: utf8/utf8.c, utf8/utf8_iter.c and text/text.c;
--   Std/Lexer: the lexer (lexer/lexer.c, token.c), with lex_code of src/core/worker.c.
-- Net: src/net, nodes, ports, wires and principal wires on an explicit heap (node.c, wire.c,
--   principal_wire.c); Net/NodeAllocator: node_allocator.c and src/packages/std/allocator/allocator.c.
-- Core: src/core, frames, functions, tasks and workers (frame.c, worker.c, worker_add_task.c).
--   Core/Connect: connect.c. Core/Node: worker_reconnect_node.c, worker_disconnect_node.c and the node
--   functions of worker.c. Core/Machine: worker_apply.c, worker_run_until.c, worker_handle_task.c and
--   worker_work_sequentially.c. Core/Mod: mod.c.
-- Lang: the compiler (src/lang/compile_one.c, compile_function.c). Lang/Reading says what a text means.
-- Prelude: src/prelude, the words on the stack and on the net (value.c, net.c). Prelude/Define: the words
--   that define nodes, rules and functions, with src/lang/define.c and checks.c and src/net/node_ctor.c.
-- Scheduler: worker_work_parallelly.c and scheduler.c of src/core, as a step relation.
--
-- A function of the source keeps its name. State is passed explicitly: a heap maps addresses, which are
-- numbers, to cells, and a worker is a record of its stacks and the heap. A failed assertion, a read
-- through a freed or null address, a second free, a write past a buffer, an exit, a division by zero and
-- arithmetic that C leaves undefined are the errors of a result. A stack of a worker is the list of its content, which Std/Stack/Refine relates to the array it is kept in.
--
-- Fuel and bounds: `connect` follows chains of wires, each round frees one, and the model gives it one
-- round more than there are addresses of wires. `walk` takes fuel from its caller. The loops of the
-- machine take fuel, since a program may run for ever. The allocator's loop gets a list of rounds, each
-- with what the other workers do to the shared stack while the mutex is free; the machine, whose worker
-- is alone, gives it one, which is enough. A walk over a linked list gets as many rounds as the list counts nodes; the lexer, the compiler and the
-- decoder of texts get as many as there are bytes or tokens, since each round takes one at least. A
-- table of names moves on by one prime of its list at most with each new name, which is why the theorems
-- on compiled texts allow 58 names.
--
-- Arithmetic: words, `int64_t` and the sizes that a write to an array asks for are kept within 64 bits;
-- where a product of integers or the bytes of a block overflow, the result is the error `undefined`. A
-- shift to the left of a negative number keeps its low 64 bits, as GCC and Clang define it. Counts of
-- what is in memory (lengths, cursors, the size of a growing array or table) are natural numbers.
-- `char` is signed in the hash of a string, as on x86.
--
-- Not modelled: the execution of a module's tokens at top level and the loader of files (src/lang);
-- the conversions to and from floats, which are parameters; printing and inspection; the command line,
-- files and paths; the sets and the other small packages of src/packages/std, which only
-- inspection uses; the thread and lock primitives, whose mutual exclusion is taken for granted, and the release and acquire
-- orders of the atomic accesses, which are taken as sequentially consistent.
pub mod Base
pub mod Core
pub mod Lang
pub mod Net
pub mod Prelude
pub mod Scheduler
pub mod Std
pub mod Value
