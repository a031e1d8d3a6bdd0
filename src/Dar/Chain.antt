-- ===== src/Dar/Chain.antt =====
-- The linked lists of the two handlers, which have the same code for their two kinds of nodes:
-- nodes at addresses, malloc as the next address that was never used, and `none` for a read or a
-- write through NULL or a wild pointer. Loops run on as many rounds as there are allocated nodes.
pub mod Shape
pub mod Insert
pub mod Change
pub mod Either
pub mod Show
use premium.Base.{ℕ, zero, suc, ◌+◌, Bool, Option, none, some, ◌==◌, if◌then◌else◌, ◌>>=◌}

abbrev pub Ptr : Type 0
Ptr = ℕ

abbrev pub null : Ptr
null = 0

pub record Node (A : Type 0) : Type 0 where
  pub item : A
  pub next : Ptr

pub record Memory (A : Type 0) : Type 0 where
  pub cell : Ptr → Option (Node A)
  pub fresh : Ptr

module _ {A : Type 0} where
  abbrev pub node : A → Ptr → Node A
  node item next = record { item = item; next = next }

  unfoldable pub store : Memory A → Ptr → Node A → Memory A
  store m p n = record m { cell = λ q. if q == p then some n else m.cell q }

  -- `p->...`
  unfoldable pub load : Memory A → Ptr → Option (Node A)
  load m p = if p == null then none else m.cell p

  unfoldable pub new_node : A → Memory A → Ptr × Memory A
  unfolding store
  new_node item m = (m.fresh, record (store m m.fresh (node item null)) { fresh = m.fresh + 1 })

  unfoldable pub insert_begin : Ptr → A → Memory A → Option (Ptr × Memory A)
  unfolding load store new_node
  insert_begin head item m = do
    let (x, m') = new_node item m
    n ← load m' x
    some (x, store m' x (record n { next = head }))

  -- `for (x = head; x->next != NULL; x = x->next);`
  unfoldable pub last_node : ℕ → Ptr → Memory A → Option Ptr
  unfolding load
  last_node zero x m = none
  last_node (suc k) x m = do
    n ← load m x
    let rest = last_node k n.next m
    if n.next == null then some x else rest

  unfoldable pub insert_end : Ptr → A → Memory A → Option (Ptr × Memory A)
  unfolding last_node load store new_node
  insert_end head item m = if head == null then some (new_node item m) else (do
    x ← last_node m.fresh head m
    let (y, m') = new_node item m
    n ← load m' x
    some (head, store m' x (record n { next = y })))

  -- `for (t = start; t != NULL; t = t->next) if (test) return t; return NULL;`
  unfoldable pub find_node : (A → Bool) → ℕ → Ptr → Memory A → Option Ptr
  unfolding load
  find_node test zero t m = none
  find_node test (suc k) t m = if t == null then some null else (do
    n ← load m t
    let rest = find_node test k n.next m
    if test n.item then some t else rest)
