-- ===== src/Version/Tests.antt =====
-- A version with concrete tables.
use kip_db.Base.{◌≡◌, refl, none, some, List, [], ◌∷◌, if◌then◌else◌}
use kip_db.Base.Int.{ℤ, pos, int_ord}
use kip_db.Base.Order.{Bytes, bytes_ord, is_eq, is_lt}
use kip_db.Error.{ok}
use kip_db.Scope.{Scope, meet_by_key}
use kip_db.Version.{Table, TableLoader, Version, query}
use kip_db.Version.Edits.{apply_edits, to_vec_edit}
use kip_db.Version.Reload.{levels_only, no_tables, to_vec_edit-apply_edits}
use kip_db.Version.Query.{query-first_hit, data_only}

abbrev scope_of : Bytes → Bytes → ℤ → Scope
scope_of first last gen = record { start = first; end = last; gen = gen; allowed_seeks = some 0 }

-- Each table has one key, whose value is the number of the table.
abbrev one_key : Bytes → Bytes → Table
one_key key value = record {
  query = λ k. ok (if is_eq k key then some (key, some value) else none);
  level = 1;
}

abbrev loader : TableLoader
loader gen =
    if is_eq gen (pos 1)
    then some (one_key (2 ∷ []) (1 ∷ []))
    else (if is_eq gen (pos 2)
        then some (one_key (5 ∷ []) (2 ∷ []))
        else (if is_eq gen (pos 3) then some (one_key (2 ∷ []) (3 ∷ [])) else none))

abbrev level_1 : List Scope
level_1 = scope_of (1 ∷ []) (3 ∷ []) (pos 1) ∷ scope_of (4 ∷ []) (7 ∷ []) (pos 2) ∷ []

abbrev version : Version
version = record {
  version_num = 1;
  level_slice =
      (scope_of (2 ∷ []) (9 ∷ []) (pos 3) ∷ scope_of (0 ∷ []) (3 ∷ []) (pos 4) ∷ [])
      ∷ level_1
      ∷ []
      ∷ []
      ∷ [];
  meta_data = record { size_of_disk = 9; len = 3 };
}

query-first_hit_example :
    data_only (query (λ n. n) loader version (5 ∷ [])).1 ≡ ok (some (5 ∷ [], some (2 ∷ [])))
unfolding meet_by_key
query-first_hit_example =
    query-first_hit (λ n. n) loader version (5 ∷ [])
      (scope_of (2 ∷ []) (9 ∷ []) (pos 3) ∷ scope_of (0 ∷ []) (3 ∷ []) (pos 4) ∷ [])
      (level_1 ∷ [] ∷ [] ∷ []) refl ((refl, ((refl, tt), (refl, (tt, tt)))), (tt, (tt, tt)))

abbrev insert_by_gen : Scope → List Scope → List Scope
insert_by_gen s [] = s ∷ []
insert_by_gen s (t ∷ ts) = if is_lt t.gen s.gen then t ∷ insert_by_gen s ts else s ∷ t ∷ ts

abbrev sorted_by_gen : List Scope → List Scope
sorted_by_gen [] = []
sorted_by_gen (s ∷ scopes) = insert_by_gen s (sorted_by_gen scopes)

-- A level 1 whose second table is older than its first.
abbrev compacted : Version
compacted = record version {
  level_slice =
      []
      ∷ (scope_of (1 ∷ []) (3 ∷ []) (pos 2) ∷ scope_of (4 ∷ []) (7 ∷ []) (pos 1) ∷ [])
      ∷ []
      ∷ []
      ∷ [];
}

-- The rebuilt level is no longer in the order of the keys.
to_vec_edit-apply_edits_example :
    levels_only
      (apply_edits sorted_by_gen (to_vec_edit compacted) (no_tables compacted.level_slice) [] [])
    ≡ ok (
        []
        ∷ (scope_of (4 ∷ []) (7 ∷ []) (pos 1) ∷ scope_of (1 ∷ []) (3 ∷ []) (pos 2) ∷ [])
        ∷ []
        ∷ []
        ∷ [])
to_vec_edit-apply_edits_example = to_vec_edit-apply_edits sorted_by_gen compacted refl
