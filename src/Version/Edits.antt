-- ===== src/Version/Edits.antt =====
-- Version::apply and Version::to_vec_edit: edits of a version, and the edits that rebuild one. The
-- sorts of itertools are parameters. An error leaves a version that the callers drop.
use mathlib.Core.List as L
use kip_db.Base.{ℕ, zero, suc, ◌+◌, Bool, false, ◌||◌, List, [], ◌∷◌, ◌++◌, ◌==◌, if◌then◌else◌}
use kip_db.Base.Int.{ℤ, int_ord}
use kip_db.Base.Order.{is_eq}
use kip_db.Cleaner.{CleanTag}
use kip_db.Error.{KernelError, KernelResult, ok, err, panic, ◌>>=◌}
use kip_db.Meta.{VersionEdit, EditType, TableMeta, VersionMeta, statistical_process}
use kip_db.Scope.{Scope}
use kip_db.Version.{Version}

abbrev contains : ℤ → List ℤ → Bool
contains gen [] = false
contains gen (g ∷ gens) = is_eq g gen || contains gen gens

-- `retain(|scope| !vec_gen.contains(&scope.gen()))`
unfoldable pub retain : List ℤ → List Scope → List Scope
retain vec_gen [] = []
retain vec_gen (scope ∷ scopes) =
    if contains scope.gen vec_gen then retain vec_gen scopes else scope ∷ retain vec_gen scopes

-- `Vec::insert`, which panics past the end
unfoldable pub insert : ℕ → Scope → List Scope → KernelResult (List Scope)
insert zero scope scopes = ok (scope ∷ scopes)
insert (suc index) scope [] = panic
insert (suc index) scope (s ∷ scopes) = do rest ← insert index scope scopes; ok (s ∷ rest)

unfoldable pub insert_all : ℕ → List Scope → List Scope → KernelResult (List Scope)
unfolding insert
insert_all index [] level = ok level
insert_all index (scope ∷ scopes) level = do
  level' ← insert index scope level
  insert_all index scopes level'

-- A change of `level_slice[level]`, which panics if there is no such level.
unfoldable pub at_level :
    (List Scope → KernelResult (List Scope))
    → ℕ
    → List (List Scope)
    → KernelResult (List (List Scope))
at_level f level [] = panic
at_level f zero (scopes ∷ levels) = do scopes' ← f scopes; ok (scopes' ∷ levels)
at_level f (suc level) (scopes ∷ levels) = do
  levels' ← at_level f level levels
  ok (scopes ∷ levels')

-- The scopes of a new file, in the order of their generations: on level 0 each is pushed, on the
-- other levels each is inserted at the index, the last one first.
unfoldable pub add_scopes :
    (List Scope → List Scope) → List Scope → ℕ → ℕ → List Scope → KernelResult (List Scope)
unfolding insert_all
add_scopes sorted_by_gen vec_scope level index scopes =
    if level == 0
    then ok (scopes ++ sorted_by_gen vec_scope)
    else insert_all index (L.reverse (sorted_by_gen vec_scope)) scopes

-- The loop of `apply`: the levels, the deleted generations and the statistics so far.
unfoldable pub apply_edits :
    (List Scope → List Scope)
    → List VersionEdit
    → List (List Scope)
    → List ℤ
    → List EditType
    → KernelResult (List (List Scope) × List ℤ × List EditType)
unfolding retain at_level add_scopes
apply_edits sorted_by_gen [] levels del_gens metas = ok (levels, del_gens, metas)
apply_edits sorted_by_gen (VersionEdit.delete_file vec_gen level sst_meta ∷ edits) levels del_gens
      metas =
    do
      levels' ← at_level (λ scopes. ok (retain vec_gen scopes)) level levels
      apply_edits sorted_by_gen edits levels' (del_gens ++ vec_gen)
          (metas ++ EditType.del sst_meta ∷ [])
apply_edits sorted_by_gen (VersionEdit.new_file vec_scope level index sst_meta ∷ edits) levels
      del_gens metas =
    do
      levels' ← at_level (add_scopes sorted_by_gen vec_scope level index) level levels
      apply_edits sorted_by_gen edits levels' del_gens (metas ++ EditType.add sst_meta ∷ [])

-- The new version, and the tag that is sent to the cleaner; `closed` tells that it cannot be sent.
unfoldable pub apply :
    (List Scope → List Scope)
    → (List EditType → List EditType)
    → Bool
    → Version
    → List VersionEdit
    → KernelResult (Version × CleanTag)
unfolding apply_edits
apply sorted_by_gen sorted closed version vec_version_edit = do
  (levels, del_gens, metas) ← apply_edits sorted_by_gen vec_version_edit version.level_slice [] []
  meta ← statistical_process sorted version.meta_data metas
  if closed
      then err KernelError.send_clean_tag_error
      else ok (
        record { version_num = version.version_num + 1; level_slice = levels; meta_data = meta },
        CleanTag.add (version.version_num + 1) del_gens,
      )

-- Only the edit of level 0 carries the statistics.
unfoldable pub sst_meta_by_level : ℕ → VersionMeta → TableMeta
sst_meta_by_level level meta =
    if level == 0
    then record { size_of_disk = meta.size_of_disk; len = meta.len }
    else record { size_of_disk = 0; len = 0 }

unfoldable pub edits_from : VersionMeta → ℕ → List (List Scope) → List VersionEdit
unfolding sst_meta_by_level
edits_from meta level [] = []
edits_from meta level ([] ∷ levels) = edits_from meta (suc level) levels
edits_from meta level ((s ∷ scopes) ∷ levels) =
    VersionEdit.new_file (s ∷ scopes) level 0 (sst_meta_by_level level meta)
    ∷ edits_from meta (suc level) levels

unfoldable pub to_vec_edit : Version → List VersionEdit
unfolding edits_from
to_vec_edit version = edits_from version.meta_data 0 version.level_slice
