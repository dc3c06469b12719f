-- ===== src/Merging/Entries.antt =====
-- The items of several iterators as one sorted list of entries.
use kip_db.Base.{ℕ, zero, suc, ◌+◌, ◌≡◌, ◌≢◌, ap, sym, refl, Option, some, List, [], ◌∷◌, arith}
use kip_db.Base.Order.{Bytes, bytes_ord, lt, eq}
use kip_db.Base.Update.{set}
use kip_db.Base.SortedMap.{insert}
use kip_db.Data.{KeyValue}
use kip_db.Base.Search.{get_elem?}
use kip_db.Merging.{
  IterKey, iter_cmp, iter_ord, iter_cmp_flip, iter_lt_trans, iter_eq_of_cmp, iter_cmp_refl, MapBuf,
}

-- The entries with the items of one iterator, and with those of all.
unfoldable pub put : ℕ → List KeyValue → MapBuf → MapBuf
put num [] m = m
put num ((k, v) ∷ items) m = put num items (insert (record { num = num; key = k }) v m)

unfoldable pub put_all : ℕ → List (List KeyValue) → MapBuf → MapBuf
put_all num [] m = m
put_all num (items ∷ lists) m = put_all (suc num) lists (put num items m)

-- Every item of an iterator comes after an entry.
abbrev pub After : IterKey → ℕ → List KeyValue → Type 0
After e num [] = Unit
After e num ((k, v) ∷ items) = (iter_cmp e (record { num = num; key = k }) ≡ lt) × After e num items

abbrev pub AllAfter : IterKey → ℕ → List (List KeyValue) → Type 0
AllAfter e num [] = Unit
AllAfter e num (items ∷ lists) = After e num items × AllAfter e (suc num) lists

insert-insert :
    (a b : IterKey) (v w : Option Bytes) (m : MapBuf)
    → iter_cmp a b ≢ eq
    → insert a v (insert b w m) ≡ insert b w (insert a v m)
insert-insert a b v w [] h = ground (arith, iter_cmp_flip a b)
insert-insert a b v w ((j, u) ∷ m) h = ground (
  arith,
  iter_cmp_flip a b,
  iter_cmp_flip a j,
  iter_cmp_flip b j,
  iter_lt_trans a j b,
  iter_lt_trans b j a,
  iter_lt_trans a b j,
  iter_lt_trans b a j,
  iter_eq_of_cmp a j,
  iter_eq_of_cmp b j,
  iter_cmp_refl j,
  insert-insert a b v w m,
)

put-cons :
    (e : IterKey) (u : Option Bytes) (num : ℕ) (items : List KeyValue) (m : MapBuf)
    → After e num items
    → put num items ((e, u) ∷ m) ≡ (e, u) ∷ put num items m
unfolding put
put-cons e u num [] m a = refl
put-cons e u num ((k, v) ∷ items) m (h, a) =
    let new : IterKey = record { num = num; key = k } in
    ground (arith, iter_cmp_flip e new, put-cons e u num items (insert new v m))

pub put_all-cons :
    (e : IterKey) (u : Option Bytes) (num : ℕ) (lists : List (List KeyValue)) (m : MapBuf)
    → AllAfter e num lists
    → put_all num lists ((e, u) ∷ m) ≡ (e, u) ∷ put_all num lists m
unfolding put_all
put_all-cons e u num [] m a = refl
put_all-cons e u num (items ∷ lists) m (h, a) =
    rw (put-cons e u num items m h) (put_all-cons e u (suc num) lists (put num items m) a)

insert-put :
    (a : IterKey) (v : Option Bytes) (num : ℕ) (items : List KeyValue) (m : MapBuf)
    → a.num ≢ num
    → put num items (insert a v m) ≡ insert a v (put num items m)
unfolding put
insert-put a v num [] m h = refl
insert-put a v num ((k, w) ∷ items) m h =
    let b : IterKey = record { num = num; key = k } in
    let ne : iter_cmp b a ≢ eq =
      λ e. h (ap (λ (x : IterKey). x.num) (sym (iter_eq_of_cmp b a e))) in
    rw (insert-insert b a w v m ne) (insert-put a v num items (insert b w m) h)

-- Taking the first item of one iterator into the entries changes nothing.
pub put_all-set :
    (n i num : ℕ) (lists : List (List KeyValue)) (k : Bytes) (v : Option Bytes)
    (items : List KeyValue) (m : MapBuf)
    → num ≡ n + i
    → get_elem? lists i ≡ some ((k, v) ∷ items)
    → put_all n (set lists i items) (insert (record { num = num; key = k }) v m) ≡ put_all n lists m
unfolding put_all put
put_all-set n i num [] k v items m e h = cc
put_all-set n zero num (l ∷ lists) k v items m e h =
    let l_lem : l ≡ (k, v) ∷ items = cc in
    let num_lem : num ≡ n = omega arith in rw (l_lem, num_lem) refl
put_all-set n (suc i) num (l ∷ lists) k v items m e h =
    rw (put_all, insert-put (record { num = num; key = k }) v n l m (λ (q : num ≡ n). omega arith))
      (put_all-set (suc n) i num lists k v items (put n l m) (omega arith) h)

pub put_all-nil :
    (n i : ℕ) (lists : List (List KeyValue)) (m : MapBuf)
    → get_elem? lists i ≡ some []
    → put_all n (set lists i []) m ≡ put_all n lists m
unfolding put_all put
put_all-nil n i [] m h = refl
put_all-nil n zero (l ∷ lists) m h = let l_lem : l ≡ [] = cc in rw l_lem refl
put_all-nil n (suc i) (l ∷ lists) m h = put_all-nil (suc n) i lists (put n l m) h
