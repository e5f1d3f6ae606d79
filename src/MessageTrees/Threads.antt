-- ===== src/MessageTrees/Threads.antt =====
-- The replies and the statuses of a tree as edges between messages, as `get_reference_descendants` of
-- messaging/trees/graph.py collects them.
use test2_freeclaudecode.Prelude.{
  ◌≡◌, refl, ap, String, Bool, true, false, ◌&&◌, ◌||◌, Option, none, some, List, [], ◌∷◌, ◌++◌,
  ◌==◌, string_eq, if◌then◌else◌, contains, distinct, contains-append, arith, Bool-cases, inl, inr,
}
use test2_freeclaudecode.Prelude.Dict.{Dict}
use test2_freeclaudecode.MessageTrees.Graph.{MessageNode, is_id}
use test2_freeclaudecode.MessageTrees.Walk.{status_child, reference_children}

abbrev pub listed_status : Option String → List String
listed_status none = []
listed_status (some status) = status ∷ []

-- Every prompt and every status of the nodes.
abbrev pub messages : Dict String MessageNode → List String
messages [] = []
messages ((id, node) ∷ nodes) =
    node.node_id ∷ (listed_status node.status_message_id ++ messages nodes)

-- The edges from a message that a node makes.
abbrev pub edges : MessageNode → String → List String
edges node r =
    status_child (node.node_id == r) node.status_message_id
    ++ (if is_id node.parent_reference_id r then node.node_id ∷ [] else [])

pub reference_children-cons :
    (id : String) (node : MessageNode) (nodes : Dict String MessageNode) (r k : String)
    → contains (reference_children ((id, node) ∷ nodes) r) k
      ≡ (contains (edges node r) k || contains (reference_children nodes r) k)
unfolding reference_children
reference_children-cons id node nodes r k = ground (
  arith,
  contains-append (status_child (node.node_id == r) node.status_message_id)
      (if is_id node.parent_reference_id r then node.node_id ∷ [] else []) k,
  contains-append (status_child (node.node_id == r) node.status_message_id)
      ((if is_id node.parent_reference_id r then node.node_id ∷ [] else [])
        ++ reference_children nodes r)
      k,
  contains-append (if is_id node.parent_reference_id r then node.node_id ∷ [] else [])
      (reference_children nodes r) k,
)

status_child-listed :
    (own : Bool) (o : Option String) (k : String)
    → contains (status_child own o) k ≡ (own && contains (listed_status o) k)
status_child-listed own none k = ground arith
status_child-listed own (some status) k = ground arith

pub contains-edges :
    (node : MessageNode) (r k : String)
    → contains (edges node r) k ≡ (
        (node.node_id == r && contains (listed_status node.status_message_id) k)
        || (is_id node.parent_reference_id r && node.node_id == k))
contains-edges node r k = ground (
  arith,
  contains-append (status_child (node.node_id == r) node.status_message_id)
      (if is_id node.parent_reference_id r then node.node_id ∷ [] else []) k,
  status_child-listed (node.node_id == r) node.status_message_id k,
)

abbrev pub node_message : MessageNode → String → Bool
node_message node k = node.node_id == k || contains (listed_status node.status_message_id) k

pub messages-cons :
    (id : String) (node : MessageNode) (nodes : Dict String MessageNode) (k : String)
    → contains (messages ((id, node) ∷ nodes)) k ≡ (
        node.node_id == k
        || (contains (listed_status node.status_message_id) k || contains (messages nodes) k))
messages-cons id node nodes k =
    ground (arith, contains-append (listed_status node.status_message_id) (messages nodes) k)

pub reference_children-messages :
    (nodes : Dict String MessageNode) (r k : String)
    → contains (reference_children nodes r) k ≡ true
    → contains (messages nodes) k ≡ true
unfolding reference_children
reference_children-messages [] r k h = cc
reference_children-messages ((id, node) ∷ nodes) r k h = ground (
  arith,
  h,
  reference_children-cons id node nodes r k,
  contains-edges node r k,
  messages-cons id node nodes k,
  reference_children-messages nodes r k,
)

distinct-append :
    (xs ys : List String)
    → distinct xs ≡ true
    → distinct ys ≡ true
    → ((k : String) → contains xs k ≡ true → contains ys k ≡ false)
    → distinct (xs ++ ys) ≡ true
distinct-append [] ys d e apart = e
distinct-append (x ∷ xs) ys d e apart =
    let rest = distinct-append xs ys (ground (arith, d)) e (λ k c. apart k (ground (arith, c))) in
    ground (arith, rest, d, contains-append xs ys x, apart x, string_eq.same_iff x x)

distinct_split :
    (xs ys : List String)
    → distinct (xs ++ ys) ≡ true
    → (distinct ys ≡ true) × ((k : String) → contains xs k ≡ true → contains ys k ≡ false)
distinct_split [] ys d = (d, λ k c. cc)
distinct_split (x ∷ xs) ys d =
    let (rest, apart) = distinct_split xs ys (ground (arith, d)) in
    (rest, λ k c. ground (arith, c, d, apart k, contains-append xs ys x, string_eq.same_iff x k))

-- The parts of the messages of a dict with an entry in front.
pub record Parts (node : MessageNode) (nodes : Dict String MessageNode) : Type 0 where
  pub rest : distinct (messages nodes) ≡ true
  pub own : contains (messages nodes) node.node_id ≡ false
  pub shown :
      (k : String)
      → contains (listed_status node.status_message_id) k ≡ true
      → contains (messages nodes) k ≡ false
  pub other : contains (listed_status node.status_message_id) node.node_id ≡ false

pub messages-Parts :
    (id : String) (node : MessageNode) (nodes : Dict String MessageNode)
    → distinct (messages ((id, node) ∷ nodes)) ≡ true
    → Parts node nodes
messages-Parts id node nodes d =
    let (rest, apart) =
      distinct_split (listed_status node.status_message_id) (messages nodes) (ground (arith, d)) in
    record {
      rest = rest;
      own = ground (
        arith,
        d,
        contains-append (listed_status node.status_message_id) (messages nodes) node.node_id,
      );
      shown = apart;
      other = ground (
        arith,
        d,
        contains-append (listed_status node.status_message_id) (messages nodes) node.node_id,
      );
    }

distinct-listed : (o : Option String) → distinct (listed_status o) ≡ true
distinct-listed none = refl
distinct-listed (some status) = refl

-- Messages with an entry in front.
pub distinct-messages :
    (id : String) (node : MessageNode) (nodes : Dict String MessageNode)
    → Parts node nodes
    → distinct (messages ((id, node) ∷ nodes)) ≡ true
distinct-messages id node nodes p =
    let rest =
      distinct-append (listed_status node.status_message_id) (messages nodes)
        (distinct-listed node.status_message_id) p.rest p.shown in
    ground (
      arith,
      rest,
      p.own,
      p.other,
      contains-append (listed_status node.status_message_id) (messages nodes) node.node_id,
    )

distinct-status_child : (own : Bool) (o : Option String) → distinct (status_child own o) ≡ true
distinct-status_child own none = refl
distinct-status_child false (some status) = refl
distinct-status_child true (some status) = refl

-- No message stands twice under another.
pub distinct-reference_children :
    (nodes : Dict String MessageNode) (r : String)
    → distinct (messages nodes) ≡ true
    → distinct (reference_children nodes r) ≡ true
unfolding reference_children
distinct-reference_children [] r d = refl
distinct-reference_children ((id, node) ∷ nodes) r d =
    let p = messages-Parts id node nodes d in
    let rest = distinct-reference_children nodes r p.rest in
    let reply = if is_id node.parent_reference_id r then node.node_id ∷ [] else [] in
    let inside : (k : String)
        → contains (reference_children nodes r) k ≡ true
        → contains (messages nodes) k ≡ true =
      reference_children-messages nodes r in
    let replied : (k : String) → contains reply k ≡ true → node.node_id ≡ k =
      λ k c. (string_eq.same_iff node.node_id k).0 (ground (arith, c)) in
    distinct-append (status_child (node.node_id == r) node.status_message_id)
      (reply ++ reference_children nodes r)
      (distinct-status_child (node.node_id == r) node.status_message_id)
      (distinct-append reply (reference_children nodes r) (ground arith) rest (λ k c.
        ground (arith, inside k, ap (λ j. contains (messages nodes) j) (replied k c), p.own)))
      (λ k c.
        let shown : contains (listed_status node.status_message_id) k ≡ true =
          ground (arith, c, status_child-listed (node.node_id == r) node.status_message_id k) in
        elim (Bool-cases (contains reply k)) [
          | inl also ↦ cc (
            ap (λ j. contains (listed_status node.status_message_id) j) (replied k also),
            shown,
            p.other,
          )
          | inr alone ↦ ground (
            arith,
            contains-append reply (reference_children nodes r) k,
            alone,
            inside k,
            p.shown k shown,
          )
        ])
