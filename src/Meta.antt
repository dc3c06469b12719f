-- ===== src/Meta.antt =====
-- src/kernel/lsm/table/meta.rs, version/meta.rs and version/edit.rs: the statistics of tables and
-- of a version, and the edits of a version.
pub mod Totals
mod Tests
use kip_db.Base.{ℕ, List, [], ◌∷◌}
use kip_db.Base.Int.{ℤ}
use kip_db.Data.{add_usize, sub_usize}
use kip_db.Error.{KernelResult, ok}
use kip_db.Scope.{Scope}

pub record TableMeta : Type 0 where
  pub size_of_disk : ℕ
  pub len : ℕ

-- the loop of `TableMeta::fusion`
unfoldable pub fusion_from : TableMeta → List TableMeta → TableMeta
fusion_from meta [] = meta
fusion_from meta (m ∷ metas) =
    fusion_from
      (record {
        size_of_disk = add_usize meta.size_of_disk m.size_of_disk;
        len = add_usize meta.len m.len;
      })
      metas

unfoldable pub fusion : List TableMeta → TableMeta
unfolding fusion_from
fusion metas = fusion_from (record { size_of_disk = 0; len = 0 }) metas

pub data VersionEdit : Type 0 where
  delete_file : List ℤ → ℕ → TableMeta → VersionEdit
  new_file : List Scope → ℕ → ℕ → TableMeta → VersionEdit

pub data EditType : Type 0 where
  add del : TableMeta → EditType

pub record VersionMeta : Type 0 where
  pub size_of_disk : ℕ
  pub len : ℕ

unfoldable pub process : VersionMeta → EditType → VersionMeta
process meta (add m) = record {
  size_of_disk = add_usize meta.size_of_disk m.size_of_disk;
  len = add_usize meta.len m.len;
}
process meta (del m) = record {
  size_of_disk = sub_usize meta.size_of_disk m.size_of_disk;
  len = sub_usize meta.len m.len;
}

unfoldable pub process_all : VersionMeta → List EditType → VersionMeta
unfolding process
process_all meta [] = meta
process_all meta (e ∷ es) = process_all (process meta e) es

-- `sorted` is that of itertools on `EditType`, whose order compares `ord_num`.
unfoldable pub statistical_process :
    (List EditType → List EditType) → VersionMeta → List EditType → KernelResult VersionMeta
unfolding process_all
statistical_process sorted meta edits = ok (process_all meta (sorted edits))

-- `EditType::ord_num`
unfoldable pub ord_num : EditType → ℕ
ord_num (add _) = 0
ord_num (del _) = 1
