-- ===== src/LruCache/Nodes.antt =====
-- src/kernel/utils/lru_cache.rs: the nodes behind raw pointers, as a heap. A read or write through a
-- pointer to no node, which is undefined behaviour in the source, has no result.
use kip_db.Base.{ℕ, Option, none, some, ◌==◌, if◌then◌else◌}

-- `NodeReadPtr`
abbrev pub Ptr : Type 0
Ptr = ℕ

pub record Node (K V : Type 0) : Type 0 where
  pub key : K
  pub value : V
  pub prev : Option Ptr
  pub next : Option Ptr

infixl 5 ◌>>=◌
abbrev pub ◌>>=◌ : {A B : Type 0} → Option A → (A → Option B) → Option B
none >>= f = none
some a >>= f = f a

module _ {K V : Type 0} where
  -- `Node::new`
  unfoldable pub new_node : K → V → Node K V
  new_node key value = record { key = key; value = value; prev = none; next = none }

module _ (K V : Type 0) where
  abbrev pub Heap : Type 0
  Heap = Ptr → Option (Node K V)

module _ {K V : Type 0} where
  abbrev pub write : Heap K V → Ptr → Option (Node K V) → Heap K V
  write h p n q = if p == q then n else h q

  -- `ptr.as_mut().prev = p` and `ptr.as_mut().next = p`
  unfoldable pub set_prev : Ptr → Option Ptr → Heap K V → Option (Heap K V)
  set_prev ptr p h = h ptr >>= λ node. some (write h ptr (some (record node { prev = p })))

  unfoldable pub set_next : Ptr → Option Ptr → Heap K V → Option (Heap K V)
  set_next ptr p h = h ptr >>= λ node. some (write h ptr (some (record node { next = p })))

  -- `Box::from_raw`: the node is given back.
  unfoldable pub free : Ptr → Heap K V → Option (Node K V × Heap K V)
  free ptr h = h ptr >>= λ node. some (node, write h ptr none)
