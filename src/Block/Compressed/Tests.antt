-- ===== src/Block/Compressed/Tests.antt =====
-- A block of three keys, with restart groups of two.
use kip_db.Base.{ℕ, ◌≡◌, refl, some, List, [], ◌∷◌, arith}
use kip_db.Base.Order.{Bytes, bytes_cmp}
use kip_db.Base.Search.{get_elem?}
use kip_db.Block.Entry.{Entry}
use kip_db.Block.Prefix.{
  agree, agree_all, is_common_prefix, shortest, search_len, longest_shared_len, groups, longest_all,
  sharding_shared_len,
}
use kip_db.Block.Compressed.{
  Block, create, compress, compress_one, restore, compare_entry, restart_shared_len,
}
use kip_db.Block.Compressed.Restore.{restore-create}
use kip_db.Block.Compressed.Compare.{compare_entry-bytes_cmp}
use kip_db.Error.{ok, ◌>>=◌}

abbrev three : List (Bytes × ℕ)
three = (1 ∷ 2 ∷ 3 ∷ [], 10) ∷ (1 ∷ 2 ∷ 4 ∷ [], 20) ∷ (1 ∷ 5 ∷ [], 30) ∷ []

shared_lens : sharding_shared_len three 2 ≡ ok (2 ∷ 2 ∷ [])
unfolding sharding_shared_len groups longest_all longest_shared_len shortest search_len
    is_common_prefix agree_all agree
shared_lens = refl

restarts : (create three 2 >>= restart_shared_len 0) ≡ ok 2
unfolding create compress compress_one sharding_shared_len groups longest_all longest_shared_len
    shortest search_len is_common_prefix agree_all agree restart_shared_len
restarts = refl

restore-create_example :
    (b : Block ℕ) × (create three 2 ≡ ok b)
    × ((i : ℕ) (kv : Bytes × ℕ)
        → get_elem? three i ≡ some kv
        → (e : ℕ × Entry ℕ) × (get_elem? b.vec_entry i ≡ some e) × (restore b e ≡ ok kv))
restore-create_example = restore-create three 2 (omega arith)

compare_entry-bytes_cmp_example :
    (b : Block ℕ) × (create three 2 ≡ ok b)
    × ((i : ℕ) (kv : Bytes × ℕ)
        → get_elem? three i ≡ some kv
        → (e : ℕ × Entry ℕ) × (get_elem? b.vec_entry i ≡ some e)
          × (compare_entry (1 ∷ []) b e ≡ ok (bytes_cmp (1 ∷ []) kv.0)))
compare_entry-bytes_cmp_example =
    compare_entry-bytes_cmp three 2 (1 ∷ []) (omega arith)
      ((refl, (refl, tt)), ((refl, tt), (tt, tt)))
