-- ===== src/Cleaner.antt =====
-- src/kernel/lsm/version/cleaner.rs: which table files are deleted, and when. A file is deleted by
-- `TableLoader::clean`, whose errors are only logged; the model returns the generations for which
-- it is called, in order.
pub mod Keeps
pub mod Waits
mod Tests
use kip_db.Base.{
  ℕ, zero, suc, ◌-◌, Option, none, some, List, [], ◌∷◌, ◌++◌, map, ◌==◌, if◌then◌else◌,
}
use kip_db.Base.Int.{ℤ}
use mathlib.Core.Option as O

pub data CleanTag : Type 0 where
  clean_version : ℕ → CleanTag
  add : ℕ → List ℤ → CleanTag

-- The field `del_gens` of `Cleaner`: version numbers with the tables to delete.
abbrev pub DelGens : Type 0
DelGens = List (ℕ × List ℤ)

unfoldable pub find_index_with_ver_num : DelGens → ℕ → Option ℕ
find_index_with_ver_num [] ver_num = none
find_index_with_ver_num ((vn, _) ∷ del_gen) ver_num =
    let later = find_index_with_ver_num del_gen ver_num in
    if vn == ver_num then some 0 else O.map suc later

-- `Vec::remove`
unfoldable pub remove : ℕ → DelGens → Option ((ℕ × List ℤ) × DelGens)
remove index [] = none
remove zero (e ∷ es) = some (e, es)
remove (suc index) (e ∷ es) =
    O.map (λ (r : (ℕ × List ℤ) × DelGens). (r.0, e ∷ r.1)) (remove index es)

-- `get_mut(index)`, with `vec_gen` appended to what is there
unfoldable pub append_at : ℕ → List ℤ → DelGens → DelGens
append_at index vec_gen [] = []
append_at zero vec_gen ((vn, gens) ∷ es) = (vn, gens ++ vec_gen) ∷ es
append_at (suc index) vec_gen (e ∷ es) = e ∷ append_at index vec_gen es

-- The new `del_gens`, and the generations whose tables are deleted.
unfoldable pub clean : DelGens → ℕ → DelGens × List ℤ
unfolding find_index_with_ver_num remove append_at
clean del_gens ver_num = elim (find_index_with_ver_num del_gens ver_num) [
  | none ↦ (del_gens, [])
  | some index ↦ elim (remove index del_gens) [
    | none ↦ (del_gens, [])
    | some ((_, vec_gen), rest) ↦ elim index [
      | zero ↦ (rest, vec_gen)
      | suc previous ↦ (append_at previous vec_gen rest, [])
    ]
  ]
]

-- One round of `listen`.
unfoldable pub receive : DelGens → CleanTag → DelGens × List ℤ
unfolding clean
receive del_gens (clean_version ver_num) = clean del_gens ver_num
receive del_gens (add version gens) = (del_gens ++ (version, gens) ∷ [], [])

unfoldable pub clean_all : DelGens → List ℕ → DelGens × List ℤ
unfolding clean
clean_all del_gens [] = (del_gens, [])
clean_all del_gens (ver_num ∷ ver_nums) =
    let (del_gens', gens) = clean del_gens ver_num in
    let (del_gens'', gens') = clean_all del_gens' ver_nums in (del_gens'', gens ++ gens')

-- The rounds for the tags received while the channel is open.
unfoldable pub receive_all : DelGens → List CleanTag → DelGens × List ℤ
unfolding receive
receive_all del_gens [] = (del_gens, [])
receive_all del_gens (tag ∷ tags) =
    let (del_gens', gens) = receive del_gens tag in
    let (del_gens'', gens') = receive_all del_gens' tags in (del_gens'', gens ++ gens')

-- `listen` ends when the channel is closed after the tags, and cleans every version left.
unfoldable pub listen : DelGens → List CleanTag → DelGens × List ℤ
unfolding receive_all clean_all
listen del_gens tags =
    let (rest, gens) = receive_all del_gens tags in
    let (rest', gens') = clean_all rest (map (λ (e : ℕ × List ℤ). e.0) rest) in
    (rest', gens ++ gens')
