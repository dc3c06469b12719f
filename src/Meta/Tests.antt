-- ===== src/Meta/Tests.antt =====
-- Statistics at concrete edits.
use kip_db.Base.{◌≡◌, ◌-◌, ◌^◌, refl, arith, [], ◌∷◌, ◌++◌, List}
use kip_db.Error.{ok}
use kip_db.Meta.{
  TableMeta, VersionMeta, EditType, add, del, process, statistical_process, fusion, ord_num,
}
use kip_db.Meta.Totals.{of_kind, statistical_process-totals}

abbrev table : TableMeta
table = record { size_of_disk = 10; len = 2 }

abbrev before : VersionMeta
before = record { size_of_disk = 5; len = 1 }

abbrev sort : List EditType → List EditType
sort es = of_kind 0 es ++ of_kind 1 es

-- The deletion stands first, and is counted last.
statistical_process-totals_example :
    statistical_process sort before (del table ∷ add table ∷ []) ≡ ok before
unfolding ord_num
statistical_process-totals_example =
    statistical_process-totals sort before (del table ∷ add table ∷ []) (λ es. refl) (omega arith)
      (omega arith) (omega arith) (omega arith)

-- Without the additions it wraps.
underflow :
    statistical_process sort before (del table ∷ [])
    ≡ ok (record { size_of_disk = 2 ^ 64 - 5; len = 2 ^ 64 - 1 })
unfolding statistical_process process ord_num
underflow = refl

fusion_runs : fusion (table ∷ table ∷ []) ≡ record { size_of_disk = 20; len = 4 }
unfolding fusion
fusion_runs = refl
