-- ===== src/Block/Builder/Keeps.antt =====
-- The blocks of a builder hold the added items in their order.
use mathlib.Core.Path.{subst}
use mathlib.Core.List.{append_assoc, append-nil}
use kip_db.Base.{
  ℕ, ◌+◌, ◌<◌, ◌≡◌, ◌⊎◌, inl, inr, refl, ap, sym, ◌∙◌, true, Bool-cases, Option, none, some, List,
  [], ◌∷◌, ◌++◌, leb, arith,
}
use kip_db.Base.Lists.{length, length-append}
use kip_db.Base.Order.{Bytes, bytes_ord, is_lt}
use kip_db.Base.SortedMap.{IsSorted}
use kip_db.Block.Builder.{
  Item, BlockOptions, BlockBuf, BlockBuilder, key_value_bytes_len, last_of, last_key, buf_add,
  empty_buf, flush, create, is_out_of_byte, build_block, add,
}
use kip_db.Block.Compressed
use kip_db.Block.Compressed.{Block}
use kip_db.Block.Compressed.Restore.{create-Placed}
use kip_db.Block.Entry.{Value}
use kip_db.Error.{KernelResult, ok, ◌>>=◌}
use kip_db.Block.Builder.Sorted.{last_of-append, last_lt, IsSorted-after, IsSorted-before}

abbrev pub concat : List (List Item) → List Item
concat [] = []
concat (chunk ∷ chunks) = chunk ++ concat chunks

abbrev pub weight : List Item → ℕ
weight [] = 0
weight (kv ∷ kvs) = key_value_bytes_len kv + weight kvs

-- The blocks are made of the chunks, and stand with their last keys.
abbrev pub Made : ℕ → List (List Item) → List (Block Value × Bytes) → Type 0
Made r [] [] = Unit
Made r [] (block ∷ blocks) = ⊥
Made r (chunk ∷ chunks) [] = ⊥
Made r (chunk ∷ chunks) ((block, key) ∷ blocks) =
    (Compressed.create chunk r ≡ ok block) × (last_of chunk ≡ some key) × Made r chunks blocks

-- The blocks and the buffer hold the items, each once and in order; the buffer, where it is not
-- empty, is smaller than a block.
pub record IsBuilt (kvs : List Item) (b : BlockBuilder) : Type 0 where
  pub chunks : List (List Item)
  pub made : Made b.options.data_restart_interval chunks b.vec_block
  pub all : concat chunks ++ b.buf.vec_key_value ≡ kvs
  pub size : b.buf.bytes_size ≡ weight b.buf.vec_key_value
  pub below : (b.buf.vec_key_value ≡ []) ⊎ (b.buf.bytes_size < b.options.block_size)
  pub count : b.len ≡ length kvs

weight-append :
    (xs : List Item) (kv : Item) → weight (xs ++ kv ∷ []) ≡ weight xs + key_value_bytes_len kv
weight-append [] kv = omega arith
weight-append (x ∷ xs) kv = omega (arith, weight-append xs kv)

concat-append :
    (chunks : List (List Item)) (chunk : List Item)
    → concat (chunks ++ chunk ∷ []) ≡ concat chunks ++ chunk
concat-append [] chunk = append-nil chunk
concat-append (c ∷ chunks) chunk =
    ap (λ t. c ++ t) (concat-append chunks chunk) ∙ sym (append_assoc c (concat chunks) chunk)

Made-append :
    (r : ℕ) (chunks : List (List Item)) (blocks : List (Block Value × Bytes)) (chunk : List Item)
    (block : Block Value) (key : Bytes)
    → Made r chunks blocks
    → Compressed.create chunk r ≡ ok block
    → last_of chunk ≡ some key
    → Made r (chunks ++ chunk ∷ []) (blocks ++ (block, key) ∷ [])
Made-append r [] [] chunk block key m c l = (c, l, tt)
Made-append r [] (x ∷ blocks) chunk block key m c l = absurd m
Made-append r (x ∷ chunks) [] chunk block key m c l = absurd m
Made-append r (x ∷ chunks) ((b, k) ∷ blocks) chunk block key (c', l', m) c l =
    (c', l', Made-append r chunks blocks chunk block key m c l)

pub create-IsBuilt : (options : BlockOptions) → IsBuilt [] (create options)
unfolding create empty_buf
create-IsBuilt options = record {
  chunks = [];
  made = tt;
  all = refl;
  size = refl;
  below = inl refl;
  count = refl;
}

buf_add-ok :
    (kv : Item) (buf : BlockBuf)
    → IsSorted (buf.vec_key_value ++ kv ∷ [])
    → buf_add kv buf
      ≡ ok (record {
        bytes_size = buf.bytes_size + key_value_bytes_len kv;
        vec_key_value = buf.vec_key_value ++ kv ∷ [];
      })
unfolding buf_add last_key
buf_add-ok kv buf sorted = by_last (last_of buf.vec_key_value) refl
  where
    by_last :
        (last : Option Bytes)
        → last_of buf.vec_key_value ≡ last
        → buf_add kv buf
          ≡ ok (record {
            bytes_size = buf.bytes_size + key_value_bytes_len kv;
            vec_key_value = buf.vec_key_value ++ kv ∷ [];
          })
    by_last none h = rw (buf_add, h) refl
    by_last (some last) h =
        let less = last_lt buf.vec_key_value kv last sorted h in
        let passes : is_lt last kv.0 ≡ true = ground arith in rw (buf_add, h, passes) refl

-- Adding an item that is greater than all before succeeds, and keeps the blocks and the buffer
-- holding all items in order.
pub add-IsBuilt :
    (kvs : List Item) (kv : Item) (b : BlockBuilder)
    → 0 < b.options.data_restart_interval
    → IsBuilt kvs b
    → IsSorted (kvs ++ kv ∷ [])
    → (b' : BlockBuilder) × (add kv b ≡ ok b')
      × IsBuilt (kvs ++ kv ∷ []) b'
      × (b'.options ≡ b.options)
unfolding add is_out_of_byte build_block flush empty_buf last_key
add-IsBuilt kvs kv b some_r i sorted =
    let items : List Item = b.buf.vec_key_value ++ kv ∷ [] in
    let whole : concat i.chunks ++ items ≡ kvs ++ kv ∷ [] =
      sym (append_assoc (concat i.chunks) b.buf.vec_key_value (kv ∷ []))
      ∙ ap (λ t. t ++ kv ∷ []) i.all in
    let tail_sorted : IsSorted items =
      IsSorted-after (concat i.chunks) items (subst (λ t. IsSorted t) (sym whole) sorted) in
    let buf : BlockBuf = record {
      bytes_size = b.buf.bytes_size + key_value_bytes_len kv;
      vec_key_value = items;
    } in
    let added : BlockBuilder = record b { buf = buf; len = b.len + 1 } in
    let one = buf_add-ok kv b.buf tail_sorted in
    let count : b.len + 1 ≡ length (kvs ++ kv ∷ []) =
      omega (arith, length-append kvs (kv ∷ []), i.count) in
    elim (Bool-cases (leb b.options.block_size (b.buf.bytes_size + key_value_bytes_len kv))) [
      | inl full ↦
          let (block, made, _) = create-Placed items b.options.data_restart_interval some_r in
          let last = last_of-append b.buf.vec_key_value kv in
          (
            record added { buf = empty_buf; vec_block = b.vec_block ++ (block, kv.0) ∷ [] },
            rw (add, one, full, build_block, last, made) refl,
            record {
              chunks = i.chunks ++ items ∷ [];
              made =
                  Made-append b.options.data_restart_interval i.chunks b.vec_block items block kv.0
                    i.made made last;
              all =
                  append-nil (concat (i.chunks ++ items ∷ []))
                  ∙ concat-append i.chunks items
                  ∙ whole;
              size = refl;
              below = inl refl;
              count = count;
            },
            refl,
          )
      | inr room ↦ (
        added,
        rw (add, one, room) refl,
        record {
          chunks = i.chunks;
          made = i.made;
          all = whole;
          size = omega (arith, weight-append b.buf.vec_key_value kv, i.size);
          below = inr (ground arith);
          count = count;
        },
        refl,
      )
    ]

abbrev pub add_all : List Item → BlockBuilder → KernelResult BlockBuilder
add_all [] b = ok b
add_all (kv ∷ kvs) b = add kv b >>= add_all kvs

add_more :
    (done kvs : List Item) (b : BlockBuilder)
    → 0 < b.options.data_restart_interval
    → IsBuilt done b
    → IsSorted (done ++ kvs)
    → (b' : BlockBuilder) × (add_all kvs b ≡ ok b') × IsBuilt (done ++ kvs) b'
add_more done [] b some_r i sorted = (b, refl, subst (λ t. IsBuilt t b) (sym (append-nil done)) i)
add_more done (kv ∷ kvs) b some_r i sorted =
    let moved : (done ++ kv ∷ []) ++ kvs ≡ done ++ kv ∷ kvs = append_assoc done (kv ∷ []) kvs in
    let sorted' : IsSorted ((done ++ kv ∷ []) ++ kvs) =
      subst (λ t. IsSorted t) (sym moved) sorted in
    let (b1, one, i1, same) =
      add-IsBuilt done kv b some_r i (IsSorted-before (done ++ kv ∷ []) kvs sorted') in
    let some_r1 : 0 < b1.options.data_restart_interval = rw same some_r in
    let (b', all, i') = add_more (done ++ kv ∷ []) kvs b1 some_r1 i1 sorted' in
    (b', rw one all, subst (λ t. IsBuilt t b') moved i')

-- Strictly sorted items, the order of which the builder asserts, are added without a panic: the
-- blocks and the buffer then hold each of them once and in order, every block is made of the items
-- up to its last key, and the buffer, where it is not empty, is smaller than a block.
pub add_all-IsBuilt :
    (kvs : List Item) (options : BlockOptions)
    → 0 < options.data_restart_interval
    → IsSorted kvs
    → (b : BlockBuilder) × (add_all kvs (create options) ≡ ok b) × IsBuilt kvs b
unfolding create
add_all-IsBuilt kvs options some_r sorted =
    add_more [] kvs (create options) some_r (create-IsBuilt options) sorted
