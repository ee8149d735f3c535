-- ===== src/QueueAndStack/Tests.antt =====
-- Runs of the queue and the stack.
use c_programming_language.Base.{◌≡◌, refl, none, some, [], ◌∷◌, arith}
use c_programming_language.Base.Int.{pos}
use c_programming_language.Memory.{null, Store, done, fault, set_cell}
use c_programming_language.Memory.Chain.{Node, node, Cells}
use c_programming_language.LinkedQueue.{Queue}
use c_programming_language.LinkedQueue.Fifo.{IsQueue}
use c_programming_language.QueueAndStack.{en_queue, de_queue_aliased}
use c_programming_language.QueueAndStack.Moves.{en_queue-de_queue_aliased}

abbrev empty : Store Node
empty a = none

abbrev one : Store Node
one = set_cell empty 1 (some (node (pos 10) null))

abbrev one_queue : Queue
one_queue = record { front = 1; rear = 1 }

abbrev cells : Cells
cells = (1, pos 10) ∷ []

one-IsQueue : IsQueue one one_queue cells
one-IsQueue = record { front = refl; rear = refl; chain = ground arith }

en_queue-de_queue_aliased_example :
    (de_queue_aliased one_queue one
      ≡ done (pos 10, record { front = null; rear = 1 }) (set_cell one 1 none))
    × (en_queue 2 null (pos 3) (record { front = null; rear = 1 }) (set_cell one 1 none) ≡ fault)
en_queue-de_queue_aliased_example =
    en_queue-de_queue_aliased one one_queue 1 2 null (pos 10) (pos 3) one-IsQueue (omega arith)
      (omega arith)
