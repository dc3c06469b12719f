-- ===== src/LruCache.antt =====
-- src/kernel/utils/lru_cache.rs: the cache, a doubly linked list of nodes with a map from keys to
-- nodes. The `HashMap`, whose keys are read through the pointers, is a sorted list of keys and
-- pointers; its order is not used.
pub mod Nodes
pub mod Cells
pub mod Links
pub mod Detach
pub mod Keys
pub mod Represents
pub mod Steps
pub mod Evict
pub mod Holds
pub mod Uses
pub mod Run
pub mod Drop
mod Tests
use kip_db.Base.{
  ℕ, zero, suc, ◌+◌, Bool, Option, none, some, List, [], ◌∷◌, ltb, leb, ◌==◌, if◌then◌else◌,
}
use kip_db.Base.Lists.{length}
use kip_db.Base.Order.{Ord}
use kip_db.Base.SortedMap
use kip_db.Base.SortedMap.Remove.{remove}
use kip_db.Error.{KernelError, KernelResult, ok, err, panic}
use kip_db.LruCache.Nodes.{Ptr, Node, Heap, ◌>>=◌, new_node, write, set_prev, set_next, free}

-- `LruCache`, with the heap and an address that no node has had.
pub record LruCache (K V : Type 0) : Type 0 where
  pub heap : Heap K V
  pub unused : Ptr
  pub head : Option Ptr
  pub tail : Option Ptr
  pub inner : List (K × Ptr)
  pub cap : ℕ

module _ {K V : Type 0} ⦃o : Ord K⦄ where
  -- `LruCache::new`
  unfoldable pub create : ℕ → KernelResult (LruCache K V)
  create cap =
      if ltb cap 1
      then err KernelError.cache_size_over_flow
      else ok
          (record { heap = λ p. none; unused = 0; head = none; tail = none; inner = []; cap = cap })

  -- The two `match`es of `detach`: past the node, from the one before and from the one after.
  unfoldable pub detach_prev : Option Ptr → Option Ptr → LruCache K V → Option (LruCache K V)
  unfolding set_next
  detach_prev none next c = some (record c { head = next })
  detach_prev (some prev) next c =
      set_next prev next c.heap >>= λ heap. some (record c { heap = heap })

  unfoldable pub detach_next : Option Ptr → Option Ptr → LruCache K V → Option (LruCache K V)
  unfolding set_prev
  detach_next none prev c = some (record c { tail = prev })
  detach_next (some next) prev c =
      set_prev next prev c.heap >>= λ heap. some (record c { heap = heap })

  -- `node.prev = p; node.next = n`
  unfoldable pub set_links : Ptr → Option Ptr → Option Ptr → LruCache K V → Option (LruCache K V)
  unfolding set_prev set_next
  set_links node p n c = set_prev node p c.heap >>= λ heap.
      set_next node n heap >>= λ heap'. some (record c { heap = heap' })

  unfoldable pub detach : Ptr → LruCache K V → Option (LruCache K V)
  unfolding detach_prev detach_next set_links
  detach node c = c.heap node >>= λ before. detach_prev before.prev before.next c >>= λ c1.
      c1.heap node >>= λ after.
      detach_next after.next after.prev c1 >>= λ c2. set_links node none none c2

  -- The `match` of `attach` on the head.
  unfoldable pub attach_at : Option Ptr → Ptr → LruCache K V → Option (LruCache K V)
  unfolding set_links set_prev
  attach_at (some head) node c = set_prev head (some node) c.heap >>= λ heap.
      set_links node none (some head) (record c { heap = heap }) >>= λ c1.
      some (record c1 { head = some node })
  attach_at none node c =
      set_links node none none c >>= λ c1. some (record c1 { head = some node; tail = some node })

  unfoldable pub attach : Ptr → LruCache K V → Option (LruCache K V)
  unfolding attach_at
  attach node c = attach_at c.head node c

  -- `expulsion`, on the tail. The evicted node stays in the heap.
  unfoldable pub expulsion_at : Option Ptr → LruCache K V → Option (LruCache K V)
  unfolding detach
  expulsion_at none c = some c
  expulsion_at (some tail) c =
      if leb c.cap (length c.inner)
      then (detach tail c >>= λ c1.
          c1.heap tail >>= λ node. some (record c1 { inner = remove node.key c1.inner }))
      else some c

  unfoldable pub expulsion : LruCache K V → Option (LruCache K V)
  unfolding expulsion_at
  expulsion c = expulsion_at c.tail c

  -- `Box::leak(Box::new(Node::new(key, value)))`
  unfoldable pub alloc : K → V → LruCache K V → LruCache K V
  unfolding new_node
  alloc key value c = record c {
    heap = write c.heap c.unused (some (new_node key value));
    unused = suc c.unused;
  }

  -- `self.inner.remove(&KeyRef(node)).map(|node| { self.detach(node); node })`
  unfoldable pub take_node : K → LruCache K V → Option (LruCache K V × Option Ptr)
  unfolding detach
  take_node key c = elim (SortedMap.get key c.inner) [
    | none ↦ some (c, none)
    | some node ↦
        detach node (record c { inner = remove key c.inner }) >>= λ c1. some (c1, some node)
  ]

  -- `old_node.map(|node| Box::from_raw(node.as_ptr()).value)`
  unfoldable pub free_value : Option Ptr → LruCache K V → Option (LruCache K V × Option V)
  unfolding free
  free_value none c = some (c, none)
  free_value (some ptr) c =
      free ptr c.heap >>= λ freed. some (record c { heap = freed.1 }, some freed.0.value)

  -- What `put` and `get_or_insert_node` do with a new node.
  unfoldable pub insert_new : Ptr → K → LruCache K V → Option (LruCache K V)
  unfolding expulsion attach
  insert_new node key c = expulsion c >>= λ c1.
      attach node c1 >>= λ c2. some (record c2 { inner = SortedMap.insert key node c2.inner })

  unfoldable pub put : K → V → LruCache K V → Option (LruCache K V × Option V)
  unfolding alloc take_node insert_new free_value
  put key value c = take_node key (alloc key value c) >>= λ taken.
      insert_new c.unused key taken.0 >>= λ c1. free_value taken.1 c1

  -- `get_node`, and the value of the node for `get`.
  unfoldable pub get_node : K → LruCache K V → Option (LruCache K V × Option Ptr)
  unfolding detach attach
  get_node key c = elim (SortedMap.get key c.inner) [
    | none ↦ some (c, none)
    | some node ↦ detach node c >>= λ c1. attach node c1 >>= λ c2. some (c2, some node)
  ]

  unfoldable pub get : K → LruCache K V → Option (LruCache K V × Option V)
  unfolding get_node
  get key c = get_node key c >>= λ found. elim found.1 [
    | none ↦ some (found.0, none)
    | some ptr ↦ found.0.heap ptr >>= λ node. some (found.0, some node.value)
  ]

  unfoldable pub remove_key : K → LruCache K V → Option (LruCache K V × Option V)
  unfolding take_node free_value
  remove_key key c = take_node key c >>= λ taken. free_value taken.1 taken.0

  -- `get_or_insert`, with the value that the closure computes for the key. Its panic leaves the cache.
  unfoldable pub get_or_insert :
      K → (K → KernelResult V) → LruCache K V → Option (LruCache K V × KernelResult V)
  unfolding get_node alloc take_node insert_new
  get_or_insert key fn_once c = elim (SortedMap.get key c.inner) [
    | some node ↦ detach node c >>= λ c1.
        attach node c1 >>= λ c2. c2.heap node >>= λ found. some (c2, ok found.value)
    | none ↦ elim (fn_once key) [
      | err e ↦ some (c, err e)
      | panic ↦ some (c, panic)
      | ok value ↦ take_node key (alloc key value c) >>= λ taken.
          insert_new c.unused key taken.0 >>= λ c1.
          c1.heap c.unused >>= λ found. some (c1, ok found.value)
    ]
  ]

  unfoldable pub len : LruCache K V → ℕ
  len c = length c.inner

  unfoldable pub is_empty : LruCache K V → Bool
  is_empty c = length c.inner == 0

  -- The loop of `drop`, from the head, on fuel.
  unfoldable pub drop_loop : ℕ → Option Ptr → LruCache K V → Option (LruCache K V)
  unfolding free
  drop_loop zero head c = none
  drop_loop (suc fuel) none c = some (record c { head = none })
  drop_loop (suc fuel) (some node) c = elim (free node c.heap) [
    | none ↦ none
    | some (freed, heap) ↦ drop_loop fuel freed.next (record c { heap = heap })
  ]

  unfoldable pub drop : ℕ → LruCache K V → Option (LruCache K V)
  unfolding drop_loop
  drop fuel c = drop_loop fuel c.head c
