-- ===== src/MessageTrees/Queue.antt =====
-- `MessageNodeQueue` of messaging/trees/queue.py: a deque with a set of its members beside it. A set
-- is a list of which only the membership is read.
use test2_freeclaudecode.Prelude.{
  ℕ, String, Bool, true, false, Option, none, some, List, [], ◌∷◌, ◌++◌, ◌==◌, contains, length,
  if◌then◌else◌, string_eq,
}

-- What is left without an item: `set.discard`, and the deque that `remove` builds.
unfoldable pub without : String → List String → List String
without item [] = []
without item (x ∷ xs) = let rest = without item xs in if x == item then rest else x ∷ rest

pub record MessageNodeQueue : Type 0 where
  pub deque : List String
  pub set : List String

abbrev pub empty_queue : MessageNodeQueue
empty_queue = record { deque = []; set = [] }

unfoldable pub put : String → MessageNodeQueue → Bool × MessageNodeQueue
put item q =
    if contains q.set item
    then (false, q)
    else (true, record { deque = q.deque ++ item ∷ []; set = item ∷ q.set })

put_all : List String → MessageNodeQueue → MessageNodeQueue
unfolding put
put_all [] q = q
put_all (item ∷ items) q = put_all items (put item q).1

unfoldable pub new_queue : List String → MessageNodeQueue
unfolding put_all
new_queue items = put_all items empty_queue

pop_from : List String → MessageNodeQueue → Option String × MessageNodeQueue
pop_from [] q = (none, q)
pop_from (item ∷ rest) q = (some item, record { deque = rest; set = without item q.set })

unfoldable pub pop : MessageNodeQueue → Option String × MessageNodeQueue
unfolding pop_from
pop q = pop_from q.deque q

abbrev pub qsize : MessageNodeQueue → ℕ
qsize q = length q.deque

abbrev pub items : MessageNodeQueue → List String
items q = q.deque

unfoldable pub remove : String → MessageNodeQueue → Bool × MessageNodeQueue
unfolding without
remove item q =
    if contains q.set item
    then (true, record { deque = without item q.deque; set = without item q.set })
    else (false, q)

unfoldable pub drain : MessageNodeQueue → List String × MessageNodeQueue
drain q = (q.deque, empty_queue)

-- A call on a queue, and what it answers.
pub data Call : Type 0 where
  put_call remove_call : String → Call
  pop_call qsize_call items_call drain_call : Call

pub data Answer : Type 0 where
  changed : Bool → Answer
  first : Option String → Answer
  size : ℕ → Answer
  all : List String → Answer

unfoldable pub answer : Call → MessageNodeQueue → Answer × MessageNodeQueue
unfolding put pop remove drain
answer (put_call item) q = let (done, q') = put item q in (changed done, q')
answer (remove_call item) q = let (done, q') = remove item q in (changed done, q')
answer pop_call q = let (item, q') = pop q in (first item, q')
answer qsize_call q = (size (qsize q), q)
answer items_call q = (all (items q), q)
answer drain_call q = let (drained, q') = drain q in (all drained, q')

unfoldable pub answers : List Call → MessageNodeQueue → List Answer × MessageNodeQueue
unfolding answer
answers [] q = ([], q)
answers (call ∷ calls) q =
    let (said, q') = answer call q in let (rest, last) = answers calls q' in (said ∷ rest, last)
