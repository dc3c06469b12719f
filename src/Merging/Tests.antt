-- ===== src/Merging/Tests.antt =====
-- The merging iterator over lists.
use kip_db.Base.{◌≡◌, refl, true, Option, none, some, List, [], ◌∷◌, arith}
use kip_db.Data.{KeyValue}
use kip_db.Error.{KernelResult, ok}
use kip_db.Merging.{
  SeekIter, Seek, create, next_loop, try_next, seek_to, pull, pull_all, init_next_buf,
  buf_map_insert,
}
use kip_db.Merging.Entries.{put, put_all}
use kip_db.Merging.Pull.{Yields}
use kip_db.Merging.Drain.{drain, merged}
use kip_db.Merging.Merged.{drain-merged}

abbrev next : List KeyValue → List KeyValue × KernelResult (Option KeyValue)
next [] = ([], ok none)
next (item ∷ items) = (items, ok (some item))

abbrev lists : SeekIter
lists = record {
  State = List KeyValue;
  try_next = next;
  seek = λ seek s. (s, ok tt);
  is_valid = λ s. true;
}

next-cons :
    (s : List KeyValue) (e : KeyValue) (es : List KeyValue)
    → s ≡ e ∷ es
    → ((next s).1 ≡ ok (some e)) × ((next s).0 ≡ es)
next-cons s e es h = rw h (refl, refl)

next-nil : (s : List KeyValue) → s ≡ [] → ((next s).1 ≡ ok none) × ((next s).0 ≡ [])
next-nil s h = rw h (refl, refl)

abbrev whole : Yields lists
whole = record { items = λ s. s; next-nil = next-nil; next-cons = next-cons }

abbrev first_items : List KeyValue
first_items = ((1 ∷ []), some (10 ∷ [])) ∷ ((4 ∷ []), none) ∷ []

abbrev last_items : List KeyValue
last_items = ((1 ∷ []), some (11 ∷ [])) ∷ ((2 ∷ []), some (12 ∷ [])) ∷ []

abbrev three : List (List KeyValue)
three = first_items ∷ [] ∷ last_items ∷ []

abbrev all_items : List KeyValue
all_items = ((1 ∷ []), some (10 ∷ [])) ∷ ((2 ∷ []), some (12 ∷ [])) ∷ ((4 ∷ []), none) ∷ []

merged_items : merged three ≡ all_items
unfolding put_all put
merged_items = refl

drained : drain {it = lists} 5 9 (create {it = lists} three).0 ≡ some all_items
unfolding create pull_all pull init_next_buf next_loop try_next buf_map_insert
drained = refl

sought :
    drain {it = lists} 5 9 (seek_to {it = lists} Seek.last (create {it = lists} three).0).0
    ≡ some []
unfolding seek_to create pull_all pull init_next_buf next_loop try_next buf_map_insert
sought = refl

drain-merged_example :
    ((create {it = lists} three).1 ≡ ok tt)
    × (drain {it = lists} 6 5 (create {it = lists} three).0 ≡ some (merged three))
drain-merged_example =
    drain-merged whole three 6 5 (((refl, tt), (tt, tt)), (tt, (((refl, tt), (tt, tt)), tt)))
      (omega arith) (omega arith)
