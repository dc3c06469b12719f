-- ===== src/MemTable/Range/Tests.antt =====
-- A scan over both maps, with old versions, a removed key and an exclusive bound.
use kip_db.Base.{ℕ, ◌≡◌, refl, none, some, List, [], ◌∷◌, if◌then◌else◌, arith}
use kip_db.Base.Int.{pos}
use kip_db.Base.Order.{Bytes, bytes_ord, included, excluded, unbounded}
use kip_db.Base.SortedMap.{IsSorted, get}
use kip_db.Data.{KeyValue}
use kip_db.Error.{ok}
use kip_db.MemTable.{TableInner}
use kip_db.MemTable.Find.{seen_at}
use kip_db.MemTable.Key.{InternalKey, key_ord}
use kip_db.MemTable.Range.{
  range_scan, merge_maps, merge_loop, push_each, push_some, duplicates_push, range_iter,
  to_internal_key, no_repeat,
}
use kip_db.MemTable.Range.Scan.{range_scan-seen_at}
use kip_db.MemTable.Range.Visible.{limit, in_bounds}
use kip_db.MemTable.Tests.{maps, records, k1, k2}
use kip_db.Trigger.{Trigger}

abbrev pub k3 : Bytes
k3 = b'c' ∷ []

abbrev at : Bytes → ℕ → InternalKey
at key n = record { key = key; seq_id = pos n }

abbrev pub both_maps : TableInner maps records
both_maps = record {
  mem =
      maps.from_iter ((at k1 5, some (50 ∷ [])) ∷ (at k2 6, none) ∷ (at k1 9, some (90 ∷ [])) ∷ []);
  immut = some (
      maps.from_iter
        ((at k1 1, some (10 ∷ [])) ∷ (at k2 2, some (20 ∷ [])) ∷ (at k3 3, some (30 ∷ [])) ∷ []));
  log_writer = [];
  log_gen = pos 7;
  trigger = Trigger.count (record { item_count = 3; threshold = 9 });
}

range_scan-seen_at_example :
    (es : List KeyValue) × (range_scan no_repeat both_maps (included k1) unbounded (some (pos 7))
      ≡ some (ok es))
    × IsSorted es
    × ((key : Bytes)
        → get key es ≡ (
            if in_bounds (included k1) unbounded key
            then seen_at both_maps key (limit (some (pos 7)))
            else none))
range_scan-seen_at_example =
    range_scan-seen_at both_maps (included k1) unbounded (some (pos 7)) no_repeat (λ es. refl)
      (
        (omega arith, (omega arith, (omega arith, tt))),
        (omega arith, (omega arith, (omega arith, tt))),
      )

scanned :
    range_scan no_repeat both_maps (excluded k1) unbounded (some (pos 7))
    ≡ some (ok ((k2, none) ∷ (k3, some (30 ∷ [])) ∷ []))
unfolding range_scan merge_maps merge_loop push_each push_some duplicates_push range_iter
    to_internal_key
scanned = refl

all_scanned :
    range_scan no_repeat both_maps unbounded (excluded k3) none
    ≡ some (ok ((k1, some (90 ∷ [])) ∷ (k2, none) ∷ []))
unfolding range_scan merge_maps merge_loop push_each push_some duplicates_push range_iter
    to_internal_key
all_scanned = refl
