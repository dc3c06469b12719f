-- ===== src/Version.antt =====
-- src/kernel/lsm/version/mod.rs: the levels of tables, and the search for a key in them. The table
-- loader answers the generation of a table with the table, if it can be loaded.
pub mod Levels
pub mod Query
pub mod Edits
pub mod Reload
mod Tests
use mathlib.Core.List as L
use kip_db.Base.{
  ℕ, zero, suc, ◌+◌, ◌-◌, ◌*◌, ◌^◌, Bool, true, false, Option, none, some, List, [], ◌∷◌, map, ltb,
  leb, ◌==◌, if◌then◌else◌,
}
use kip_db.Base.Int.{ℤ}
use kip_db.Base.Lists.{length}
use kip_db.Base.Order.{Bytes, bytes_ord, cmp, Ordering}
use kip_db.Base.Search.{Position, found, insert_at, binary_search, get_elem?}
use kip_db.Data.{KeyValue}
use kip_db.Error.{KernelResult, ok, err, panic}
use kip_db.Meta.{VersionMeta}
use kip_db.Scope.{Scope, meet_by_key, seeks_increase}

-- What the version calls of a table and of the loader.
pub record Table : Type 0 where
  pub query : Bytes → KernelResult (Option KeyValue)
  pub level : ℕ

abbrev pub TableLoader : Type 0
TableLoader = ℤ → Option Table

pub record Version : Type 0 where
  pub version_num : ℕ
  -- `MAX_LEVEL` levels
  pub level_slice : List (List Scope)
  pub meta_data : VersionMeta

abbrev pub SeekScope : Type 0
SeekScope = Scope × ℕ

pub data SeekOption : Type 0 where
  hit : KeyValue → SeekOption
  miss : Option SeekScope → SeekOption

-- A miss at a level above 0 counts against the scope; `other` is what other threads do to the
-- counter meanwhile.
unfoldable pub query_by_scope :
    (ℕ → ℕ) → TableLoader → Bytes → Scope → ℕ → Scope × KernelResult SeekOption
query_by_scope other loader key scope level =
    if meet_by_key scope key
    then elim (loader scope.gen) [
      | some table ↦ elim (table.query key) [
        | ok (some value) ↦ (scope, ok (hit value))
        | ok none ↦
            let (scope', fired) = seeks_increase other scope in
            if ltb 0 level
            then (scope', ok (miss (if fired then some (scope', table.level) else none)))
            else (scope, ok (miss none))
        | err e ↦ (scope, err e)
        | panic ↦ (scope, panic)
      ]
      | none ↦ (scope, ok (miss none))
    ]
    else (scope, ok (miss none))

-- The loop over the tables of level 0, the last one first; their counters stay.
unfoldable pub query_level_0 :
    (ℕ → ℕ) → TableLoader → Bytes → List Scope → KernelResult (Option KeyValue)
unfolding query_by_scope
query_level_0 other loader key [] = ok none
query_level_0 other loader key (scope ∷ scopes) =
    let rest = query_level_0 other loader key scopes in
    elim (query_by_scope other loader key scope 0).1 [
      | ok (hit key_value) ↦ ok (some key_value)
      | ok (miss _) ↦ rest
      | err e ↦ err e
      | panic ↦ panic
    ]

-- `query_meet_index`, of the scopes of the level
unfoldable pub query_meet_index : Bytes → List Scope → ℕ
query_meet_index key scopes = elim (binary_search (map (λ (s : Scope). cmp s.start key) scopes)) [
  | found index ↦ index
  | insert_at index ↦ index - 1
]

abbrev set_at : ℕ → Scope → List Scope → List Scope
set_at i s [] = []
set_at zero s (t ∷ ts) = s ∷ ts
set_at (suc i) s (t ∷ ts) = t ∷ set_at i s ts

abbrev first_miss : Option SeekScope → Option SeekScope → Option SeekScope
first_miss none m = m
first_miss (some s) m = some s

-- The loop over the levels from 1 on, with the first miss that fired so far; the levels come back
-- with their counters.
unfoldable pub query_levels :
    (ℕ → ℕ)
    → TableLoader
    → Bytes
    → ℕ
    → List (List Scope)
    → Option SeekScope
    → List (List Scope) × KernelResult (Option KeyValue × Option SeekScope)
unfolding query_by_scope query_meet_index
query_levels other loader key level [] miss_seek = ([], ok (none, miss_seek))
query_levels other loader key level (scopes ∷ levels) miss_seek =
    let offset = query_meet_index key scopes in
    elim (get_elem? scopes offset) [
      | none ↦
          let (levels', r) = query_levels other loader key (suc level) levels miss_seek in
          (scopes ∷ levels', r)
      | some scope ↦
          let (scope', answer) = query_by_scope other loader key scope level in
          let scopes' = set_at offset scope' scopes in
          elim answer [
            | ok (hit value) ↦ (scopes' ∷ levels, ok (some value, miss_seek))
            | ok (miss seek_scope) ↦
                let (levels', r) =
                  query_levels other loader key (suc level) levels
                    (first_miss miss_seek seek_scope) in
                (scopes' ∷ levels', r)
            | err e ↦ (scopes' ∷ levels, err e)
            | panic ↦ (scopes' ∷ levels, panic)
          ]
    ]

-- The version comes back with its counters. There always are `MAX_LEVEL` levels.
unfoldable pub query :
    (ℕ → ℕ)
    → TableLoader
    → Version
    → Bytes
    → Version × KernelResult (Option KeyValue × Option SeekScope)
unfolding query_level_0 query_levels
query other loader version key = elim version.level_slice [
  | [] ↦ (version, panic)
  | level_0 ∷ levels ↦ elim (query_level_0 other loader key (L.reverse level_0)) [
    | ok (some key_value) ↦ (version, ok (some key_value, none))
    | ok none ↦
        let (levels', r) = query_levels other loader key 1 levels none in
        (record version { level_slice = level_0 ∷ levels' }, r)
    | err e ↦ (version, err e)
    | panic ↦ (version, panic)
  ]
]
