-- ===== src/Version/Reload.antt =====
-- The levels of a version that is rebuilt from its own edits.
use mathlib.Core.List as L
use kip_db.Base.{
  ℕ, suc, ◌≡◌, refl, ap, ◌∙◌, Bool-cases, inl, inr, List, [], ◌∷◌, ◌++◌, map, ◌==◌, arith,
}
use kip_db.Base.Lists.{length, length-append}
use kip_db.Base.Int.{ℤ}
use kip_db.Error.{KernelResult, ok, ◌>>=◌}
use kip_db.Meta.{EditType, VersionMeta}
use kip_db.Scope.{Scope}
use kip_db.Version.{Version}
use kip_db.Version.Edits.{
  apply_edits, at_level, add_scopes, insert_all, insert, edits_from, to_vec_edit, sst_meta_by_level,
}

insert_all_lem : (ys zs : List Scope) → insert_all 0 ys zs ≡ ok (L.reverse_aux ys zs)
unfolding insert_all insert
insert_all_lem [] zs = refl
insert_all_lem (y ∷ ys) zs = insert_all_lem ys (y ∷ zs)

at_level_lem :
    (f : List Scope → KernelResult (List Scope)) (before after : List (List Scope))
    (scopes scopes' : List Scope)
    → f scopes ≡ ok scopes'
    → at_level f (length before) (before ++ scopes ∷ after) ≡ ok (before ++ scopes' ∷ after)
unfolding at_level
at_level_lem f [] after scopes scopes' e = rw e refl
at_level_lem f (b ∷ before) after scopes scopes' e =
    rw (at_level_lem f before after scopes scopes' e) refl

-- The levels of the result.
abbrev pub levels_only :
    KernelResult (List (List Scope) × List ℤ × List EditType) → KernelResult (List (List Scope))
levels_only r = r >>= λ x. ok x.0

abbrev pub no_tables : List (List Scope) → List (List Scope)
no_tables levels = map (λ (scopes : List Scope). []) levels

module _ (sorted_by_gen : List Scope → List Scope) where
  add_scopes_lem :
      (scopes : List Scope) (level : ℕ)
      → add_scopes sorted_by_gen scopes level 0 [] ≡ ok (sorted_by_gen scopes)
  unfolding add_scopes
  add_scopes_lem scopes level = elim (Bool-cases (level == 0)) [
    | inl b ↦ rw (add_scopes, b) refl
    | inr b ↦
        rw (add_scopes, b)
          (insert_all_lem (L.reverse (sorted_by_gen scopes)) []
            ∙ ap ok (L.reverse-reverse (sorted_by_gen scopes)))
  ]

  module _ (meta : VersionMeta) (sort_nil : sorted_by_gen [] ≡ []) where
    next :
        (before : List (List Scope)) (x : List Scope) (levels : List (List Scope))
        (del_gens : List ℤ) (metas : List EditType)
        → levels_only (
            apply_edits sorted_by_gen
              (edits_from meta (length (before ++ x ∷ [])) levels)
              ((before ++ x ∷ []) ++ no_tables levels)
              del_gens
              metas)
          ≡ ok ((before ++ x ∷ []) ++ map sorted_by_gen levels)
        → levels_only (
            apply_edits sorted_by_gen
              (edits_from meta (suc (length before)) levels)
              (before ++ x ∷ no_tables levels)
              del_gens
              metas)
          ≡ ok (before ++ x ∷ map sorted_by_gen levels)
    next before x levels del_gens metas h =
        let l : length (before ++ x ∷ []) ≡ suc (length before) =
          omega (arith, length-append before (x ∷ [])) in
        rw
          (
            l,
            L.append_assoc before (x ∷ []) (no_tables levels),
            L.append_assoc before (x ∷ []) (map sorted_by_gen levels),
          )
          at h

    rebuilt :
        (before levels : List (List Scope)) (del_gens : List ℤ) (metas : List EditType)
        → levels_only (
            apply_edits sorted_by_gen
              (edits_from meta (length before) levels)
              (before ++ no_tables levels)
              del_gens
              metas)
          ≡ ok (before ++ map sorted_by_gen levels)
    unfolding apply_edits edits_from
    rebuilt before [] del_gens metas = refl
    rebuilt before ([] ∷ levels) del_gens metas =
        rw sort_nil
          (next before [] levels del_gens metas (rebuilt (before ++ [] ∷ []) levels del_gens metas))
    rebuilt before ((s ∷ scopes) ∷ levels) del_gens metas =
        let level = length before in
        let new = sorted_by_gen (s ∷ scopes) in
        let metas' = metas ++ EditType.add (sst_meta_by_level level meta) ∷ [] in
        rw
          (at_level_lem (add_scopes sorted_by_gen (s ∷ scopes) level 0) before (no_tables levels) []
            new (add_scopes_lem (s ∷ scopes) level))
          (next before new levels del_gens metas'
            (rebuilt (before ++ new ∷ []) levels del_gens metas'))

  -- Applied to a version without tables, the edits that a version is turned into rebuild its
  -- levels with the scopes of each level in the order of their generations, the lower levels
  -- included; the sort is assumed to leave an empty list empty.
  pub to_vec_edit-apply_edits :
      (version : Version)
      → sorted_by_gen [] ≡ []
      → levels_only
          (apply_edits sorted_by_gen (to_vec_edit version) (no_tables version.level_slice) [] [])
        ≡ ok (map sorted_by_gen version.level_slice)
  unfolding to_vec_edit
  to_vec_edit-apply_edits version sort_nil =
      rebuilt version.meta_data sort_nil [] version.level_slice [] []
