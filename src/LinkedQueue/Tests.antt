-- ===== src/LinkedQueue/Tests.antt =====
-- Runs of the queue.
use c_programming_language.Base.{refl, none, some, [], ◌∷◌, arith}
use c_programming_language.Base.Int.{pos}
use c_programming_language.Memory.{null, Store, Ends, set_cell}
use c_programming_language.Memory.Chain.{Node, node, Cells}
use c_programming_language.LinkedList.Back.{snoc}
use c_programming_language.LinkedQueue.{Queue, en_queue}
use c_programming_language.LinkedQueue.Fifo.{IsQueue, Queued, en_queue_lem}

abbrev empty : Store Node
empty a = none

abbrev two : Store Node
two = set_cell (set_cell empty 1 (some (node (pos 10) 2))) 2 (some (node (pos 20) null))

abbrev two_queue : Queue
two_queue = record { front = 1; rear = 2 }

abbrev cells : Cells
cells = (1, pos 10) ∷ (2, pos 20) ∷ []

two-IsQueue : IsQueue two two_queue cells
two-IsQueue = record { front = refl; rear = refl; chain = ground arith }

en_queue_lem_example :
    Ends (λ r t. Queued t 7 r (snoc cells 3 (pos 30))) (en_queue 3 7 (pos 30) two_queue two)
en_queue_lem_example =
    en_queue_lem two null two_queue 3 7 (pos 30) cells two-IsQueue (omega arith) refl
