-- ===== src/BTreeTable/Tests.antt =====
-- A table of data with a repeated key, as in the repository's own test of its iterator.
use kip_db.Base.{◌≡◌, refl, none, some, [], ◌∷◌}
use kip_db.Base.Int.{pos}
use kip_db.BTreeTable.{BTreeTable, from_iter, create, query, iter, seek, try_next}
use kip_db.Error.{ok}
use kip_db.Merging.{Seek}

abbrev table : BTreeTable
unfolding create from_iter
table = create 0 (pos 0) ((2 ∷ [], some (7 ∷ [])) ∷ (1 ∷ [], none) ∷ (2 ∷ [], some (8 ∷ [])) ∷ [])

queried : query table (2 ∷ []) ≡ ok (some (2 ∷ [], some (8 ∷ [])))
unfolding query table create from_iter
queried = refl

first_item : (try_next (iter table)).1 ≡ ok (some (1 ∷ [], none))
unfolding try_next iter seek table create from_iter
first_item = refl

sought :
    (try_next (seek (Seek.backward (2 ∷ [])) (iter table))).1 ≡ ok (some (2 ∷ [], some (8 ∷ [])))
unfolding try_next iter seek table create from_iter
sought = refl

past_the_end : (try_next (seek Seek.last (iter table))).1 ≡ ok none
unfolding try_next iter seek table create from_iter
past_the_end = refl
