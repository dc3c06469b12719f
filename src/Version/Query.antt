-- ===== src/Version/Query.antt =====
-- A query finds what the newest table that has the key holds.
use mathlib.Core.List as L
use kip_db.Base.{
  ℕ, suc, ◌≡◌, refl, Option-cases, inl, inr, false, Option, none, some, List, [], ◌∷◌, ◌++◌,
  if◌then◌else◌, arith,
}
use kip_db.Base.Order.{Bytes, bytes_ord}
use kip_db.Base.Search.{get_elem?}
use kip_db.Data.{KeyValue}
use kip_db.Error.{KernelResult, ok, err, panic, split_result, is_ok, is_err, is_panic}
use kip_db.Scope.{Scope, meet_by_key}
use kip_db.Version.{
  Version, TableLoader, SeekOption, SeekScope, hit, miss, first_miss, query_by_scope, query_level_0,
  query_levels, query_meet_index, query,
}
use kip_db.Version.Levels.{IsLevel, first_hit, or_next, read_at, first_hit-read_at}

-- What the table of a scope has for the key: nothing if the scope does not meet the key or the
-- table cannot be loaded.
abbrev pub read : TableLoader → Bytes → Scope → KernelResult (Option KeyValue)
read loader key s =
    if meet_by_key s key
    then elim (loader s.gen) [ some table ↦ table.query key | none ↦ ok none ]
    else ok none

abbrev data_of : KernelResult SeekOption → KernelResult (Option KeyValue)
data_of (ok (hit key_value)) = ok (some key_value)
data_of (ok (miss _)) = ok none
data_of (err e) = err e
data_of panic = panic

-- The data that a query answers, without the scope to compact.
abbrev pub data_only :
    KernelResult (Option KeyValue × Option SeekScope) → KernelResult (Option KeyValue)
data_only (ok (found, _)) = ok found
data_only (err e) = err e
data_only panic = panic

abbrev pub AllLevels : List (List Scope) → Type 0
AllLevels [] = Unit
AllLevels (scopes ∷ levels) = IsLevel scopes × AllLevels levels

abbrev pub all_scopes : List (List Scope) → List Scope
all_scopes [] = []
all_scopes (scopes ∷ levels) = scopes ++ all_scopes levels

outside :
    (loader : TableLoader) (key : Bytes) (s : Scope)
    → meet_by_key s key ≡ false
    → read loader key s ≡ ok none
outside loader key s h = rw h refl

first_hit-append :
    (f : Scope → KernelResult (Option KeyValue)) (xs ys : List Scope)
    → first_hit f (xs ++ ys) ≡ or_next (first_hit f xs) (first_hit f ys)
first_hit-append f [] ys = refl
first_hit-append f (x ∷ xs) ys = at (f x) (first_hit-append f xs ys)
  where
    at :
        (r : KernelResult (Option KeyValue))
        → first_hit f (xs ++ ys) ≡ or_next (first_hit f xs) (first_hit f ys)
        → or_next r (first_hit f (xs ++ ys)) ≡ or_next (or_next r (first_hit f xs)) (first_hit f ys)
    at (ok (some kv)) ih = refl
    at (ok none) ih = ih
    at (err e) ih = refl
    at panic ih = refl

query_by_scope-read :
    (other : ℕ → ℕ) (loader : TableLoader) (key : Bytes) (s : Scope) (level : ℕ)
    → data_of (query_by_scope other loader key s level).1 ≡ read loader key s
unfolding query_by_scope
query_by_scope-read other loader key s level = ground arith

query_level_0-first_hit :
    (other : ℕ → ℕ) (loader : TableLoader) (key : Bytes) (scopes : List Scope)
    → query_level_0 other loader key scopes ≡ first_hit (read loader key) scopes
unfolding query_level_0
query_level_0-first_hit other loader key [] = refl
query_level_0-first_hit other loader key (s ∷ scopes) =
    at (query_by_scope other loader key s 0).1 (query_by_scope-read other loader key s 0)
      (query_level_0-first_hit other loader key scopes)
  where
    at :
        (r : KernelResult SeekOption)
        → data_of r ≡ read loader key s
        → query_level_0 other loader key scopes ≡ first_hit (read loader key) scopes
        → elim r [
          | ok (hit key_value) ↦ ok (some key_value)
          | ok (miss _) ↦ query_level_0 other loader key scopes
          | err e ↦ err e
          | panic ↦ panic
        ]
          ≡ or_next (read loader key s) (first_hit (read loader key) scopes)
    at (ok (hit kv)) e ih = rw (← e) refl
    at (ok (miss m)) e ih = rw (← e) ih
    at (err x) e ih = rw (← e) refl
    at panic e ih = rw (← e) refl

query_levels-first_hit :
    (other : ℕ → ℕ) (loader : TableLoader) (key : Bytes) (level : ℕ) (levels : List (List Scope))
    (miss_seek : Option SeekScope)
    → AllLevels levels
    → data_only (query_levels other loader key level levels miss_seek).1
      ≡ first_hit (read loader key) (all_scopes levels)
unfolding query_levels
query_levels-first_hit other loader key level [] miss_seek s = refl
query_levels-first_hit other loader key level (scopes ∷ levels) miss_seek (sorted, s) =
    let hits = first_hit-read_at key (read loader key) (outside loader key) scopes sorted in
    let step = first_hit-append (read loader key) scopes (all_scopes levels) in
    let ih =
      λ (m : Option SeekScope). query_levels-first_hit other loader key (suc level) levels m s in
    elim (Option-cases (get_elem? scopes (query_meet_index key scopes))) [
      | inl n ↦
          let none_lem = rw (n, read_at) at hits in
          rw (query_levels, n, step, none_lem) (ih miss_seek)
      | inr (scope, n) ↦
          let one_lem = rw (n, read_at) at hits in
          let qs = query_by_scope-read other loader key scope level in
          elim (split_result (query_by_scope other loader key scope level).1) [
            | is_ok (hit kv) r ↦
                let q = rw r at qs in rw (query_levels, n, r, step, one_lem, ← q) refl
            | is_ok (miss m) r ↦
                let q = rw r at qs in
                rw (query_levels, n, r, step, one_lem, ← q) (ih (first_miss miss_seek m))
            | is_err x r ↦ let q = rw r at qs in rw (query_levels, n, r, step, one_lem, ← q) refl
            | is_panic r ↦ let q = rw r at qs in rw (query_levels, n, r, step, one_lem, ← q) refl
          ]
    ]

-- A query answers what the first table that has the key holds, in the order of the levels and, on
-- level 0, from the last table to the first, whatever the counters of the scopes; the first error
-- of a table on the way is the answer. Every level but level 0 is assumed sorted and disjoint.
pub query-first_hit :
    (other : ℕ → ℕ) (loader : TableLoader) (version : Version) (key : Bytes) (level_0 : List Scope)
    (levels : List (List Scope))
    → version.level_slice ≡ level_0 ∷ levels
    → AllLevels levels
    → data_only (query other loader version key).1
      ≡ first_hit (read loader key) (L.reverse level_0 ++ all_scopes levels)
unfolding query query_levels
query-first_hit other loader version key level_0 levels e s =
    let step = first_hit-append (read loader key) (L.reverse level_0) (all_scopes levels) in
    let first = query_level_0-first_hit other loader key (L.reverse level_0) in
    elim (split_result (query_level_0 other loader key (L.reverse level_0))) [
      | is_ok none r ↦
          let q = rw r at first in
          rw (query, e, r, step, ← q) (query_levels-first_hit other loader key 1 levels none s)
      | is_ok (some kv) r ↦ let q = rw r at first in rw (query, e, r, step, ← q) refl
      | is_err x r ↦ let q = rw r at first in rw (query, e, r, step, ← q) refl
      | is_panic r ↦ let q = rw r at first in rw (query, e, r, step, ← q) refl
    ]
