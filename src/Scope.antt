-- ===== src/Scope.antt =====
-- src/kernel/lsm/table/scope.rs: the key range of a table, and its count of seek misses.
pub mod Meet
pub mod Cover
pub mod Seeks
mod Tests
use kip_db.Base.{ℕ, ◌+◌, ◌%◌, ◌^◌, Bool, true, false, ◌&&◌, ◌||◌, Option, none, some}
use kip_db.Base.{List, [], ◌∷◌, map, ltb, ◌==◌, if◌then◌else◌}
use kip_db.Base.Int.{ℤ, pos, int_ord}
use kip_db.Base.Order.{
  Bytes, Bound, included, excluded, unbounded, bytes_ord, is_le, is_ge, is_lt, is_eq,
}
use kip_db.Data.{KeyValue}
use kip_db.Error.{KernelResult, KernelError, ok, err}

abbrev pub seek_compaction_count : ℕ
seek_compaction_count = 100

-- `allowed_seeks` is the value in the shared counter, if the scope has one.
pub record Scope : Type 0 where
  pub start : Bytes
  pub end : Bytes
  pub gen : ℤ
  pub allowed_seeks : Option ℕ

-- `Scope::eq`
unfoldable pub eq_scope : Scope → Scope → Bool
eq_scope s t = elim s.allowed_seeks [
  | none ↦ false
  | some a ↦ elim t.allowed_seeks [
    | none ↦ false
    | some b ↦ a == b && (is_eq s.start t.start && (is_eq s.end t.end && is_eq s.gen t.gen))
  ]
]

-- The two atomic steps of `seeks_increase` on the counter: `fetch_add(1)`, and the exchange, which
-- stores 0 if the counter still holds `current + 1`.
unfoldable pub fetch_add : ℕ → ℕ × ℕ
fetch_add seeks = (seeks, (seeks + 1) % 2 ^ 32)

unfoldable pub compare_exchange : ℕ → ℕ → ℕ × Bool
compare_exchange current seeks =
    if seeks == (current + 1) % 2 ^ 32 then (0, true) else (seeks, false)

-- `other` is what other threads do to the counter between the two steps.
unfoldable pub seeks_increase : (ℕ → ℕ) → Scope → Scope × Bool
unfolding fetch_add compare_exchange
seeks_increase other s = elim s.allowed_seeks [
  | none ↦ (s, false)
  | some seeks ↦
      let (current, added) = fetch_add seeks in
      let (seeks', reset) = compare_exchange current (other added) in
      if ltb seek_compaction_count current
      then (record s { allowed_seeks = some seeks' }, reset)
      else (record s { allowed_seeks = some (other added) }, false)
]

unfoldable pub from_range : ℤ → Bytes → Bytes → Scope
from_range gen first last = record { start = first; end = last; gen = gen; allowed_seeks = some 0 }

unfoldable pub from_key : Bytes → Scope
from_key key = record { start = key; end = key; gen = pos 0; allowed_seeks = none }

-- `Iterator::min` and `Iterator::max`: of equal elements the first and the last.
unfoldable pub min_from : Bytes → List Bytes → Bytes
min_from least [] = least
min_from least (key ∷ keys) = min_from (if is_lt key least then key else least) keys

unfoldable pub max_from : Bytes → List Bytes → Bytes
max_from greatest [] = greatest
max_from greatest (key ∷ keys) = max_from (if is_lt key greatest then greatest else key) keys

unfoldable pub fusion : List Scope → Option Scope
unfolding min_from max_from
fusion [] = none
fusion (s ∷ scopes) = some (record {
  start = min_from s.start (map (λ (t : Scope). t.start) scopes);
  end = max_from s.end (map (λ (t : Scope). t.end) scopes);
  gen = pos 0;
  allowed_seeks = none;
})

unfoldable pub meet : Scope → Scope → Bool
meet s target =
    is_le s.start target.start && is_ge s.end target.start
    || (is_le s.start target.end && is_ge s.end target.end
        || (is_le s.start target.start && is_ge s.end target.end
            || is_ge s.start target.start && is_le s.end target.end))

unfoldable pub meet_by_key : Scope → Bytes → Bool
meet_by_key s key = is_le s.start key && is_ge s.end key

abbrev min_inside : Scope → Bound Bytes → Bool
min_inside s (included key) = is_le s.start key
min_inside s (excluded key) = is_lt s.start key
min_inside s unbounded = true

abbrev max_inside : Scope → Bound Bytes → Bool
max_inside s (included key) = is_ge s.end key
max_inside s (excluded key) = is_lt key s.end
max_inside s unbounded = true

unfoldable pub meet_bound : Scope → Bound Bytes → Bound Bytes → Bool
meet_bound s min max = min_inside s min && max_inside s max

abbrev last_key : Bytes → List KeyValue → Bytes
last_key key [] = key
last_key key ((key', _) ∷ rest) = last_key key' rest

-- `[first, .., last]` and `[one]` are the lists with a first element.
unfoldable pub from_sorted_vec_data : ℤ → List KeyValue → KernelResult Scope
unfolding from_range
from_sorted_vec_data gen [] = err KernelError.data_empty
from_sorted_vec_data gen ((first, _) ∷ rest) = ok (from_range gen first (last_key first rest))
