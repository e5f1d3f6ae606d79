-- ===== src/MessageTrees/QueueOrder.antt =====
-- The queue of a tree behaves as a list without repetitions: its set never says anything else than
-- its deque.
use test2_freeclaudecode.Prelude.{
  ◌∙◌, ◌≡◌, refl, String, true, false, not, ◌&&◌, none, some, List, [], ◌∷◌, ◌++◌, ◌==◌, contains,
  distinct, length, if◌then◌else◌, arith, Bool-cases, inl, inr, string_eq, contains-append,
  distinct-snoc,
}
use test2_freeclaudecode.MessageTrees.Queue.{
  without, MessageNodeQueue, empty_queue, put, pop, remove, drain, Call, put_call, remove_call,
  pop_call, qsize_call, items_call, drain_call, Answer, changed, first, size, all, answer, answers,
}

-- A queue of which no item stands twice, told by its items alone.
unfoldable pub answer_of : Call → List String → Answer × List String
unfolding without
answer_of (put_call item) xs =
    if contains xs item then (changed false, xs) else (changed true, xs ++ item ∷ [])
answer_of (remove_call item) xs = (changed (contains xs item), without item xs)
answer_of pop_call [] = (first none, [])
answer_of pop_call (item ∷ xs) = (first (some item), xs)
answer_of qsize_call xs = (size (length xs), xs)
answer_of items_call xs = (all xs, xs)
answer_of drain_call xs = (all xs, [])

pub answers_of : List Call → List String → List Answer × List String
unfolding answer_of
answers_of [] xs = ([], xs)
answers_of (call ∷ calls) xs =
    let (said, ys) = answer_of call xs in
    let (rest, last) = answers_of calls ys in (said ∷ rest, last)

pub record IsIndexed (q : MessageNodeQueue) : Type 0 where
  pub unique : distinct q.deque ≡ true
  pub same : (x : String) → contains q.set x ≡ contains q.deque x

pub contains-without :
    (item x : String) (xs : List String)
    → contains (without item xs) x ≡ (contains xs x && not (item == x))
unfolding without
contains-without item x [] = refl
contains-without item x (y ∷ ys) = ground (
  arith,
  string_eq.same_iff y item,
  string_eq.same_iff item x,
  string_eq.same_iff y x,
  contains-without item x ys,
)

pub distinct-without :
    (item : String) (xs : List String) → distinct xs ≡ true → distinct (without item xs) ≡ true
unfolding without
distinct-without item [] h = refl
distinct-without item (y ∷ ys) h =
    ground (arith, contains-without item y ys, distinct-without item ys)

without-absent :
    (item : String) (xs : List String) → contains xs item ≡ false → without item xs ≡ xs
unfolding without
without-absent item [] h = refl
without-absent item (y ∷ ys) h = ground (arith, without-absent item ys, string_eq.same_iff y item)

-- A call on an indexed queue answers what the list answers, and goes on with the same list.
pub record Follows (call : Call) (q : MessageNodeQueue) : Type 0 where
  pub said : (answer call q).0 ≡ (answer_of call q.deque).0
  pub left : (answer call q).1.deque ≡ (answer_of call q.deque).1
  pub indexed : IsIndexed (answer call q).1

put-Follows : (item : String) (q : MessageNodeQueue) → IsIndexed q → Follows (put_call item) q
unfolding answer answer_of put
put-Follows item q h = elim (Bool-cases (contains q.deque item)) [
  | inl there ↦
      let known = h.same item ∙ there in
      record { said = rw (known, there) refl; left = rw (known, there) refl; indexed = rw known h }
  | inr new ↦
      let unknown = h.same item ∙ new in
      record {
        said = rw (unknown, new) refl;
        left = rw (unknown, new) refl;
        indexed = rw unknown (record {
          unique = distinct-snoc q.deque item h.unique new;
          same = λ x. ground (arith, contains-append q.deque (item ∷ []) x, h.same x);
        });
      }
]

remove-Follows : (item : String) (q : MessageNodeQueue) → IsIndexed q → Follows (remove_call item) q
unfolding answer answer_of remove
remove-Follows item q h = elim (Bool-cases (contains q.deque item)) [
  | inl there ↦
      let known = h.same item ∙ there in
      record {
        said = rw (known, there) refl;
        left = rw known refl;
        indexed = rw known (record {
          unique = distinct-without item q.deque h.unique;
          same = λ x.
              ground
                (arith, contains-without item x q.deque, contains-without item x q.set, h.same x);
        });
      }
  | inr absent ↦
      let unknown = h.same item ∙ absent in
      record {
        said = rw (unknown, absent) refl;
        left = rw (unknown, without-absent item q.deque absent) refl;
        indexed = rw unknown h;
      }
]

pop-Follows :
    (xs seen : List String)
    → IsIndexed (record { deque = xs; set = seen })
    → Follows pop_call (record { deque = xs; set = seen })
unfolding answer answer_of pop
pop-Follows [] seen h = record { said = refl; left = refl; indexed = h }
pop-Follows (item ∷ xs) seen h = record {
  said = refl;
  left = refl;
  indexed = record {
    unique = ground (arith, h.unique);
    same = λ x.
        ground (arith, contains-without item x seen, h.same x, h.unique, string_eq.same_iff item x);
  };
}

pub answer-Follows : (call : Call) (q : MessageNodeQueue) → IsIndexed q → Follows call q
answer-Follows (put_call item) q h = put-Follows item q h
answer-Follows (remove_call item) q h = remove-Follows item q h
answer-Follows pop_call q h = pop-Follows q.deque q.set h
answer-Follows qsize_call q h =
    unfold answer answer_of in record { said = refl; left = refl; indexed = h }
answer-Follows items_call q h =
    unfold answer answer_of in record { said = refl; left = refl; indexed = h }
answer-Follows drain_call q h =
    unfold answer answer_of drain in
    record { said = refl; left = refl; indexed = record { unique = refl; same = λ x. refl } }

answers_follow :
    (calls : List Call) (q : MessageNodeQueue)
    → IsIndexed q
    → ((answers calls q).0 ≡ (answers_of calls q.deque).0)
      × ((answers calls q).1.deque ≡ (answers_of calls q.deque).1)
      × IsIndexed (answers calls q).1
unfolding answers answers_of
answers_follow [] q h = (refl, refl, h)
answers_follow (call ∷ calls) q h =
    let step = answer-Follows call q h in
    let (said, left, indexed) = answers_follow calls (answer call q).1 step.indexed in
    (cc (step.said, step.left, said), cc (step.left, left), indexed)

-- From the empty queue, any calls in any order answer what a list without repetitions answers: an
-- item goes to the end unless it is there, the oldest is popped, and a removal takes the item out
-- wherever it stands. Afterwards no item stands twice, and the set and the deque have the same
-- members.
pub answers-answers_of :
    (calls : List Call)
    → let (said, left) = answers calls empty_queue in
      (said ≡ (answers_of calls []).0)
      × (left.deque ≡ (answers_of calls []).1)
      × (distinct left.deque ≡ true)
      × ((x : String) → contains left.set x ≡ contains left.deque x)
answers-answers_of calls =
    let (said, left, indexed) =
      answers_follow calls empty_queue (record { unique = refl; same = λ x. refl }) in
    (said, left, indexed.unique, indexed.same)
