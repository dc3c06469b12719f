-- ===== src/Block/Compressed/Restore.antt =====
-- The entries of a new block have the keys that it was made of.
use mathlib.Core.Path.{subst}
use kip_db.Base.{
  ℕ, ◌+◌, ◌*◌, ◌/◌, ◌%◌, ◌≤◌, ◌<◌, ◌≡◌, inl, inr, refl, ap, sym, ◌∙◌, true, false, Bool-cases, some,
  List, leb, ◌==◌, arith,
}
use kip_db.Base.Lists.{length, take, drop}
use kip_db.Base.Order.{Bytes}
use kip_db.Base.Search.{get_elem?}
use kip_db.Block.Entry.{Entry}
use kip_db.Block.Prefix.{groups, longest_shared_len, sharding_shared_len}
use kip_db.Block.Compressed.{Block, element, compress_one, create, shared_key_prefix, restore}
use kip_db.Error.{ok}
use kip_db.Base.Slices.{
  div_mod, mod_lt, times_mod, sub_mod, get_elem?-drop, get_elem?-take, get_below, take-drop,
}
use kip_db.Base.Update.{get_some}
use kip_db.Block.Compressed.Groups.{groups-get, longest_all-get, longest-get}
use kip_db.Block.Compressed.Entries.{One, Stands, compress-get, restart_one, shared_one}

module _ {T : Type 0} where
  -- What holds of an item and the first item of its group.
  pub record InGroup (r : ℕ) (lens : List ℕ) (kvs : List (Bytes × T)) (i : ℕ) (kv : Bytes × T)
      : Type 0 where
    pub len : ℕ
    pub first : Bytes × T
    pub at_len : get_elem? lens (i / r) ≡ some len
    pub at_first : get_elem? kvs (i / r * r) ≡ some first
    pub first_long : len ≤ length first.0
    pub long : len ≤ length kv.0
    pub common : take len first.0 ≡ take len kv.0

  InGroup-get :
      (r : ℕ) (lens : List ℕ) (kvs : List (Bytes × T))
      → 0 < r
      → ((g : ℕ) (group : List (Bytes × T))
          → get_elem? (groups (length kvs) r kvs) g ≡ some group
          → (len : ℕ) × (get_elem? lens g ≡ some len) × (longest_shared_len group ≡ ok len))
      → (i : ℕ) (kv : Bytes × T) → get_elem? kvs i ≡ some kv
      → InGroup r lens kvs i kv
  InGroup-get r lens kvs some_r each i kv h =
      let s : ℕ = i / r * r in
      let e = div_mod i r some_r in
      let below = get_below kvs i kv h in
      let group : List (Bytes × T) = take r (drop s kvs) in
      let at_g = groups-get (length kvs) r (i / r) kvs some_r (omega arith) (omega arith) in
      let (len, at_len, found) = each (i / r) group at_g in
      let (first, at_s) = get_some s kvs (omega arith) in
      let s0 : s + 0 ≡ s = omega arith in
      let at_0 : get_elem? group 0 ≡ some first =
        get_elem?-take r 0 (drop s kvs) some_r
        ∙ get_elem?-drop s 0 kvs
        ∙ subst (λ j. get_elem? kvs j ≡ some first) (sym s0) at_s in
      let at_i : get_elem? group (i % r) ≡ some kv =
        get_elem?-take r (i % r) (drop s kvs) (mod_lt i r some_r)
        ∙ get_elem?-drop s (i % r) kvs
        ∙ subst (λ j. get_elem? kvs j ≡ some kv) (sym e) h in
      let (first_long, long, common) = longest-get group len (i % r) first kv found at_0 at_i in
      record {
        len = len;
        first = first;
        at_len = at_len;
        at_first = at_s;
        first_long = first_long;
        long = long;
        common = common;
      }

  InGroup-One :
      (r : ℕ) (lens : List ℕ) (kvs : List (Bytes × T)) (i : ℕ) (kv : Bytes × T)
      → InGroup r lens kvs i kv
      → One r lens i kv
  InGroup-One r lens kvs i kv g = elim (Bool-cases (i % r == 0)) [
    | inl restart ↦ let (e, one, _, _, _) = restart_one r lens i kv (ground arith) in (e, one)
    | inr inside ↦
        let (e, one, _, _, _) = shared_one r lens i g.len kv (λ z. ground arith) g.at_len g.long in
        (e, one)
  ]

  -- An entry leaves out a prefix that its key has in common with the first key of its group.
  pub record Shape (first kv : Bytes × T) (e : Entry T) : Type 0 where
    pub key : e.key ≡ drop e.shared_len kv.0
    pub item : e.item ≡ kv.1
    pub first_long : e.shared_len ≤ length first.0
    pub long : e.shared_len ≤ length kv.0
    pub common : take e.shared_len first.0 ≡ take e.shared_len kv.0

  InGroup-Shape :
      (r : ℕ) (lens : List ℕ) (kvs : List (Bytes × T)) (i : ℕ) (kv : Bytes × T) (e : Entry T)
      → (g : InGroup r lens kvs i kv) → compress_one r lens i kv ≡ ok (i, e)
      → Shape g.first kv e
  InGroup-Shape r lens kvs i kv e g one = elim (Bool-cases (i % r == 0)) [
    | inl restart ↦
        let (d, one_d, key_d, item_d, len_d) = restart_one r lens i kv (ground arith) in
        let same : d ≡ e = cc in
        subst (λ x. Shape g.first kv x) same
          (record {
            key = rw len_d key_d;
            item = item_d;
            first_long = omega arith;
            long = omega arith;
            common = rw len_d refl;
          })
    | inr inside ↦
        let (d, one_d, key_d, item_d, len_d) =
          shared_one r lens i g.len kv (λ z. ground arith) g.at_len g.long in
        let same : d ≡ e = cc in
        subst (λ x. Shape g.first kv x) same
          (record {
            key = rw len_d key_d;
            item = item_d;
            first_long = rw len_d g.first_long;
            long = rw len_d g.long;
            common = rw len_d g.common;
          })
  ]

  restart-shared_len :
      (r : ℕ) (lens : List ℕ) (i : ℕ) (kv : Bytes × T) (e : Entry T)
      → i % r ≡ 0
      → compress_one r lens i kv ≡ ok (i, e)
      → e.shared_len ≡ 0
  restart-shared_len r lens i kv e z one =
      let (d, one_d, _, _, len_d) = restart_one r lens i kv z in
      let same : d ≡ e = cc in ap (λ (x : Entry T). x.shared_len) (sym same) ∙ len_d

  -- An entry of a block, with the first entry of its group.
  pub record Placed (r : ℕ) (kvs : List (Bytes × T)) (b : Block T) (i : ℕ) (kv : Bytes × T)
      : Type 0 where
    pub entry : Entry T
    pub first : Bytes × T
    pub at_entry : get_elem? b.vec_entry i ≡ some (i, entry)
    pub at_first : get_elem? kvs (i / r * r) ≡ some first
    pub shape : Shape first kv entry
    pub restart : i % r ≡ 0 → entry.shared_len ≡ 0
    pub prefix : (n : ℕ) → n ≤ length first.0 → shared_key_prefix i n b ≡ ok (take n first.0)

  first_prefix :
      (r : ℕ) (b : Block T) (i n : ℕ) (first : Bytes × T) (e0 : Entry T)
      → 0 < r
      → b.restart_interval ≡ r
      → get_elem? b.vec_entry (i / r * r) ≡ some (i / r * r, e0)
      → e0.key ≡ first.0
      → n ≤ length first.0
      → shared_key_prefix i n b ≡ ok (take n first.0)
  unfolding shared_key_prefix
  first_prefix r b i n first e0 some_r interval at_0 key_0 le =
      let positive : (r == 0) ≡ false = ground arith in
      let fits : leb n (length first.0) ≡ true = ground arith in
      rw (shared_key_prefix, interval, positive, sub_mod i r some_r, element, at_0, key_0, fits)
        refl

  -- A block of any items can be made at every positive interval, and has an entry for each of them.
  pub create-Placed :
      (kvs : List (Bytes × T)) (r : ℕ)
      → 0 < r
      → (b : Block T) × (create kvs r ≡ ok b)
        × ((i : ℕ) (kv : Bytes × T) → get_elem? kvs i ≡ some kv → Placed r kvs b i kv)
  unfolding create sharding_shared_len
  create-Placed kvs r some_r =
      let (lens, all, each) = longest_all-get (groups (length kvs) r kvs) in
      let inside : (i : ℕ) (kv : Bytes × T) → get_elem? kvs i ≡ some kv → InGroup r lens kvs i kv =
        InGroup-get r lens kvs some_r each in
      let one : (i : ℕ) (kv : Bytes × T) → get_elem? kvs i ≡ some kv → One r lens (0 + i) kv =
        λ i kv h.
          let e : i ≡ 0 + i = omega arith in
          subst (λ j. One r lens j kv) e (InGroup-One r lens kvs i kv (inside i kv h)) in
      let (entries, made, stands) = compress-get r lens 0 kvs one in
      let b : Block T = record { restart_interval = r; vec_entry = entries } in
      let positive : (r == 0) ≡ false = ground arith in
      (
        b,
        rw (create, sharding_shared_len, positive, all, made) refl,
        λ i kv h.
            let g = inside i kv h in
            let i0 : 0 + i ≡ i = omega arith in
            let s0 : 0 + i / r * r ≡ i / r * r = omega arith in
            let (e, at_e, one_e) =
              subst (λ j. Stands r lens j kv (get_elem? entries i)) i0 (stands i kv h) in
            let (e0, at_0, one_0) =
              subst (λ j. Stands r lens j g.first (get_elem? entries (i / r * r))) s0
                (stands (i / r * r) g.first g.at_first) in
            let (f, one_f, key_f, item_f, _) =
              restart_one r lens (i / r * r) g.first (times_mod (i / r) r some_r) in
            let same : f ≡ e0 = cc in
            record {
              entry = e;
              first = g.first;
              at_entry = at_e;
              at_first = g.at_first;
              shape = InGroup-Shape r lens kvs i kv e g one_e;
              restart = λ z. restart-shared_len r lens i kv e z one_e;
              prefix = λ n le.
                  first_prefix r b i n g.first e0 some_r refl at_0
                    (ap (λ (x : Entry T). x.key) (sym same) ∙ key_f) le;
            },
      )

  -- A block of any items, at a positive interval, can be made, and gives every item back with its
  -- key.
  pub restore-create :
      (kvs : List (Bytes × T)) (r : ℕ)
      → 0 < r
      → (b : Block T) × (create kvs r ≡ ok b)
        × ((i : ℕ) (kv : Bytes × T)
            → get_elem? kvs i ≡ some kv
            → (e : ℕ × Entry T) × (get_elem? b.vec_entry i ≡ some e) × (restore b e ≡ ok kv))
  unfolding restore
  restore-create kvs r some_r =
      let (b, made, placed) = create-Placed kvs r some_r in
      (
        b,
        made,
        λ i kv h.
            let p = placed i kv h in
            let s = p.shape in
            (
              (i, p.entry),
              p.at_entry,
              rw
                  (
                    restore,
                    p.prefix p.entry.shared_len s.first_long,
                    s.key,
                    s.item,
                    s.common,
                    take-drop p.entry.shared_len kv.0,
                  )
                  refl,
            ),
      )
