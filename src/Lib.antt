-- ===== src/Lib.antt =====
-- Models of the C programs of this repository, a collection of independent programs: each file has
-- its own `main`, and they share no code. A module here models one program or one data structure.
--
-- Programs and modules (paths from the repository's root):
-- Avl, from DataStructures/AVL_tree.c. `Tree` is `node *`, NULL is `leaf`; `insert`, the rotations and
--   `delete_node` with the balance tests written out. `delete_node` in the source uses names that the
--   file does not declare (`root`, `deleteNode`, `minValue`, ...); they are read as the functions
--   that the file has. Height is about the trees that insertions build.
-- BinaryTree, from DataStructures/BinaryTree. Search (BInaryTree.c), Measures (Main.c: `Size`,
--   `MaxDepth`, `lookup`, `MinValue`) and Growth (TreeAndList.c: `insertTree`).
-- Paging, from MemoryManagement/AlgorithmForLRU_Page_Replacement_Simulator.c, from the initial state to
--   `simulate_accesses`, on one record of the globals; `rand` is an arbitrary stream.
-- LruHeap, from MemoryManagementSystem.c, the min-heap of blocks by access time with its links back.
-- Memory, from a store of nodes with faults, for the programs whose nodes are shared by pointers, and
--   Memory.Chain, the chains of nodes in it. LinkedList (DataStructures/LinkedList/DQ.c) works on it.
-- LinkedQueue (DataStructures/Queue/Queue.c), LinkedStack (DataStructures/Stack.c) and QueueAndStack
--   (DataStructures/queueandstack.c) work on the same memory.
-- ListInsert, from insertList in DataStructures/BinaryTree/TreeAndList.c, and ListSort, from
--   DataStructures/LinkedList/BubbleSort.c, work on memory with the same nodes.
-- Deque, from DataStructures/DoublyLinkedListDequ.c, works on memory too, with its own nodes.
-- MaxSub, from Algorithms/D&C/max_sub.c, whose undefined max_three is an argument; a sum that is no
--   `int` ends the run.
-- ArrayStack, from DataStructures/Stack/Stack2.c. BreadthFirst and DepthFirst, from
--   DataStructures/BFS/main.c and DataStructures/DFS/main.c, on graphs as functions to lists, and
--   Reachable for the walks in them.
-- WordTable, from Hash/FrequencyCounter/main.c: the table (Counts) and the loop of main that reads
--   lines and splits them by strtok (Reading). Trie, from DataStructures/Trie/main.c. Binary, from
--   String_To_Binary.c. Palindrome, from StringsAndChars.c.
-- Automata, from Automata/example.c (Cycle), example2.c (Digits) and example3.c (Aab).
-- PrefixFunction, from DataStructures/String_Algorithms/LPS.c.
-- ThreadedQueue, from ThreadedDataStructures/ThreadedQueue.c: fgq_enqueue, fgq_dequeue,
--   producer_thread and consumer_thread as steps on shared memory, State for all threads and the
--   states that they reach, Locks, Shape and Counts for the parts of the invariant, Destroy for
--   fgq_destroy and the end of main, Correct for the theorems, Schedules to run threads in an order.
-- ThreadPool, from network_programming/ThreadPool/server.c: the ring of clients with its semaphores
--   as steps of main and the workers, Handler for handle_client, and Overflow for the requests that
--   write past the end of its array.
-- FileServer, from network_programming/concurrentFileServerClient/server.c: the accept loop with its
--   permits (Accounts), and Handler for handle_client.
-- SecureServer, from network_programming/secureHttpServerAndClient/server.c: the accept loop with its
--   permits (Permits), and Handler for handle_client, which builds paths as ThreadPool does.
-- Fibonacci, from TextFiles/FibonacciNumbers.c. ArraySort, from Threads/SortAndPrintArray.c.
-- Clock, from DigitalClock/main.c. VariableArguments, from Variable_Arguments/Mix_Max_Sum.c.
--
-- Conventions. An `int` that a program only compares is an exact integer `ℤ`, or a number where the
-- code keeps it nonnegative. `none`, or `fault`, is a dereference of NULL, an index out of bounds, a
-- failed `assert` or, where a module says so, an overflow of `int`. The result of `malloc` is an
-- argument: whether it succeeds, or the address it returns. What `rand` returns is an argument too.
-- Prints and the release of memory at the end of a program are left out where no later step depends on
-- them.
--
-- Fuel. Loops on pointers and the sift loops of the heap run on fuel. Enough is: one more than the
-- length of the list for the walks of a list, `heap_size + 1` for the sifts, and one round for a
-- character for the automata; the theorems say so in their premises or prove that the run ends.
-- `bfs` takes one round more than there are vertices, `dfs` the same and as many steps of a walk as
-- there are vertices and edges, `max_sub` one call more than there are elements, `compute_lps` two
-- rounds for each character, and `fgq_destroy` two rounds more than the queue has nodes behind the
-- dummy.
--
-- Threads. A program with threads is a function that makes one step of one thread, and a relation that
-- lets any thread make the next one, so a theorem on reachable states holds for every interleaving. A
-- step is atomic; accesses to what no other thread reaches at that time are taken together. `waits`
-- is a thread that stands before a lock or a semaphore that it cannot take. Where a model keeps what is
-- allocated or open, malloc and accept return something else: this is the premise `Fresh` of a step.
--
-- Not modelled: the setup of sockets, the clients and the other servers of network_programming, the
-- MySQL client and the flex scanners, which consist of calls of the operating system and of libraries;
-- the file readers of Threads; and the program of FunctionPointers.
pub mod Base
pub mod Avl
pub mod BinaryTree
pub mod Paging
pub mod LruHeap
pub mod Reachable
pub mod Memory
pub mod LinkedList
pub mod LinkedQueue
pub mod LinkedStack
pub mod QueueAndStack
pub mod ListSort
pub mod ArrayStack
pub mod Deque
pub mod BreadthFirst
pub mod DepthFirst
pub mod ListInsert
pub mod Trie
pub mod Binary
pub mod Palindrome
pub mod WordTable
pub mod MaxSub
pub mod Automata
pub mod ThreadedQueue
pub mod FileServer
pub mod ArraySort
pub mod Fibonacci
pub mod SecureServer
pub mod PrefixFunction
pub mod ThreadPool
pub mod Clock
pub mod VariableArguments
