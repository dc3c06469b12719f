-- ===== src/Cleaner/Tests.antt =====
-- The cleaner on concrete tags.
use kip_db.Base.{◌≡◌, refl, [], ◌∷◌}
use kip_db.Base.Int.{pos}
use kip_db.Cleaner.{
  clean_version, add, receive, receive_all, listen, clean, find_index_with_ver_num, remove,
  append_at,
}
use kip_db.Cleaner.Waits.{occurs}
use kip_db.Cleaner.Keeps.{receive_all-in_use, listen-added}

-- Version 3 is dropped before version 2, from which on table 5 is garbage.
receive_all-in_use_example :
    occurs
      (pos 5)
      (receive_all
        ((1, pos 4 ∷ []) ∷ (2, pos 5 ∷ []) ∷ [])
        (add 3 (pos 6 ∷ []) ∷ clean_version 3 ∷ clean_version 1 ∷ [])).1
    ≡ 0
receive_all-in_use_example =
    receive_all-in_use 2 (pos 5) ((1, pos 4 ∷ []) ∷ (2, pos 5 ∷ []) ∷ [])
      (add 3 (pos 6 ∷ []) ∷ clean_version 3 ∷ clean_version 1 ∷ []) refl refl

listen-added_example :
    (occurs (pos 6) (listen [] (add 1 (pos 6 ∷ []) ∷ add 2 [] ∷ clean_version 2 ∷ [])).1 ≡ 1)
    × ((listen [] (add 1 (pos 6 ∷ []) ∷ add 2 [] ∷ clean_version 2 ∷ [])).0 ≡ [])
listen-added_example =
    listen-added (pos 6) [] (add 1 (pos 6 ∷ []) ∷ add 2 [] ∷ clean_version 2 ∷ [])

-- A version that is not the first hands its tables to the one before.
handed_on :
    receive_all ((1, pos 4 ∷ []) ∷ (2, pos 5 ∷ []) ∷ []) (clean_version 2 ∷ [])
    ≡ ((1, pos 4 ∷ pos 5 ∷ []) ∷ [], [])
unfolding receive_all receive clean find_index_with_ver_num remove append_at
handed_on = refl
