-- ===== src/Meta/Totals.antt =====
-- The statistics of a version are its additions less its deletions, in whatever order they come.
use kip_db.Base.{
  ℕ, ◌+◌, ◌-◌, ◌^◌, ◌<◌, ◌≡◌, refl, ap, ◌∙◌, if◌then◌else◌, leb, ◌==◌, List, [], ◌∷◌, ◌++◌, arith,
}
use kip_db.Data.{add_usize, sub_usize}
use kip_db.Error.{ok}
use kip_db.Meta.{
  EditType, add, del, VersionMeta, process, process_all, ord_num, statistical_process,
}

abbrev pub added_size : List EditType → ℕ
added_size [] = 0
added_size (add m ∷ es) = m.size_of_disk + added_size es
added_size (del m ∷ es) = added_size es

abbrev pub added_len : List EditType → ℕ
added_len [] = 0
added_len (add m ∷ es) = m.len + added_len es
added_len (del m ∷ es) = added_len es

abbrev pub deleted_size : List EditType → ℕ
deleted_size [] = 0
deleted_size (add m ∷ es) = deleted_size es
deleted_size (del m ∷ es) = m.size_of_disk + deleted_size es

abbrev pub deleted_len : List EditType → ℕ
deleted_len [] = 0
deleted_len (add m ∷ es) = deleted_len es
deleted_len (del m ∷ es) = m.len + deleted_len es

-- The edits of one kind, in their order.
abbrev pub of_kind : ℕ → List EditType → List EditType
of_kind k [] = []
of_kind k (e ∷ es) = if ord_num e == k then e ∷ of_kind k es else of_kind k es

-- What itertools documents of `sorted`: it sorts stably. With two kinds this is the kinds in order.
abbrev pub IsStableSort : (List EditType → List EditType) → Type 0
IsStableSort sorted = (es : List EditType) → sorted es ≡ of_kind 0 es ++ of_kind 1 es

plus : VersionMeta → List EditType → VersionMeta
plus meta es = record {
  size_of_disk = meta.size_of_disk + added_size es;
  len = meta.len + added_len es;
}

process_all-adds :
    (meta : VersionMeta) (es rest : List EditType)
    → meta.size_of_disk + added_size es < 2 ^ 64
    → meta.len + added_len es < 2 ^ 64
    → process_all meta (of_kind 0 es ++ rest) ≡ process_all (plus meta es) rest
unfolding process_all process plus ord_num
process_all-adds meta [] rest h k = ap (λ (v : VersionMeta). process_all v rest) (ground arith)
process_all-adds meta (add m ∷ es) rest h k =
    process_all-adds
      (record {
        size_of_disk = add_usize meta.size_of_disk m.size_of_disk;
        len = add_usize meta.len m.len;
      })
      es rest (omega arith) (omega arith)
    ∙ ap (λ (v : VersionMeta). process_all v rest) (ground arith)
process_all-adds meta (del m ∷ es) rest h k = process_all-adds meta es rest h k

-- What wrapping subtraction of `d` leaves of `a`: the difference, or 2 ^ 64 more where `d` is greater.
abbrev pub remaining : ℕ → ℕ → ℕ
remaining a d = if leb d a then a - d else 2 ^ 64 + a - d

sub_usize-remaining : (a b : ℕ) → a < 2 ^ 64 → b < 2 ^ 64 → sub_usize a b ≡ remaining a b
sub_usize-remaining a b h k = ground arith

remaining-remaining :
    (a b d : ℕ) → a < 2 ^ 64 → b + d < 2 ^ 64 → remaining (remaining a b) d ≡ remaining a (b + d)
remaining-remaining a b d h k = ground arith

remaining-sub_usize :
    (a b d : ℕ) → a < 2 ^ 64 → b + d < 2 ^ 64 → remaining (sub_usize a b) d ≡ remaining a (b + d)
remaining-sub_usize a b d h k =
    rw (sub_usize-remaining a b h (omega arith)) (remaining-remaining a b d h k)

process_all-dels :
    (meta : VersionMeta) (es : List EditType)
    → meta.size_of_disk < 2 ^ 64
    → meta.len < 2 ^ 64
    → deleted_size es < 2 ^ 64
    → deleted_len es < 2 ^ 64
    → process_all meta (of_kind 1 es) ≡ (record {
      size_of_disk = remaining meta.size_of_disk (deleted_size es);
      len = remaining meta.len (deleted_len es);
    })
unfolding process_all process ord_num
process_all-dels meta [] h k hd kd = ground arith
process_all-dels meta (add m ∷ es) h k hd kd = process_all-dels meta es h k hd kd
process_all-dels meta (del m ∷ es) h k hd kd =
    process_all-dels (process meta (del m)) es (omega arith) (omega arith) (omega arith)
      (omega arith)
    ∙ rw
        (
          remaining-sub_usize meta.size_of_disk m.size_of_disk (deleted_size es) h hd,
          remaining-sub_usize meta.len m.len (deleted_len es) k kd,
        )
        refl

-- The statistics become the old ones plus all additions less all deletions, whatever the order of
-- the edits; where the deletions exceed the old value and the additions together, the result is
-- 2 ^ 64 more, in size and in length each by itself, and no error. The sums of the old values and
-- the additions, and those of the deletions, are assumed to fit a `u64`, and `sorted` to sort
-- stably.
pub statistical_process-totals :
    (sorted : List EditType → List EditType) (meta : VersionMeta) (es : List EditType)
    → IsStableSort sorted
    → meta.size_of_disk + added_size es < 2 ^ 64
    → meta.len + added_len es < 2 ^ 64
    → deleted_size es < 2 ^ 64
    → deleted_len es < 2 ^ 64
    → statistical_process sorted meta es
      ≡ ok (record {
        size_of_disk = remaining (meta.size_of_disk + added_size es) (deleted_size es);
        len = remaining (meta.len + added_len es) (deleted_len es);
      })
unfolding statistical_process plus
statistical_process-totals sorted meta es stable h k hd kd = ap ok (
    ap (process_all meta) (stable es)
    ∙ process_all-adds meta es (of_kind 1 es) h k
    ∙ process_all-dels (plus meta es) es h k hd kd)
