-- ===== src/Cleaner/Waits.antt =====
-- How often a table waits for its deletion, before and after a version is cleaned.
use kip_db.Base.{
  ℕ, ◌+◌, ◌≤◌, ◌≡◌, refl, ap, Bool-cases, Option-cases, inl, inr, true, false, Option, none, some,
  List, [], ◌∷◌, ◌++◌, ◌==◌, if◌then◌else◌, arith,
}
use kip_db.Base.Int.{ℤ, int_ord}
use kip_db.Base.Order.{is_eq}
use mathlib.Core.Option as O
use kip_db.Cleaner.{DelGens, find_index_with_ver_num, remove, append_at, clean}

-- How often a generation occurs.
abbrev pub occurs : ℤ → List ℤ → ℕ
occurs g [] = 0
occurs g (h ∷ gens) = (if is_eq h g then 1 else 0) + occurs g gens

pub occurs-append : (g : ℤ) (xs ys : List ℤ) → occurs g (xs ++ ys) ≡ occurs g xs + occurs g ys
occurs-append g [] ys = omega arith
occurs-append g (x ∷ xs) ys = omega (arith, occurs-append g xs ys)

-- How often it waits to be deleted, at all and from the entry of a version on.
abbrev pub waits : ℤ → DelGens → ℕ
waits g [] = 0
waits g ((v, gens) ∷ es) = occurs g gens + waits g es

abbrev pub waits_from : ℕ → ℤ → DelGens → ℕ
waits_from u g [] = 0
waits_from u g ((v, gens) ∷ es) = if v == u then occurs g gens + waits g es else waits_from u g es

-- `clean` after an entry that it does not look for.
absorb : ℕ → ℕ × List ℤ → DelGens → DelGens
absorb ver e [] = e ∷ []
absorb ver (v, gens) ((v', gens') ∷ es) =
    if v' == ver then (v, gens ++ gens') ∷ es else (v, gens) ∷ absorb ver (v', gens') es

pub clean_first :
    (v ver : ℕ) (gens : List ℤ) (es : DelGens)
    → (v == ver) ≡ true
    → clean ((v, gens) ∷ es) ver ≡ (es, gens)
unfolding clean find_index_with_ver_num remove
clean_first v ver gens es h = rw (clean, find_index_with_ver_num, h)

-- What `clean` does at a later index, on the entries after the first.
abbrev moved : ℕ → ℕ × List ℤ → DelGens → Option DelGens
moved i e es = O.map (λ (r : (ℕ × List ℤ) × DelGens). append_at i r.0.1 (e ∷ r.1)) (remove i es)

moved-absorb :
    (ver : ℕ) (e : ℕ × List ℤ) (es : DelGens)
    → elim (find_index_with_ver_num es ver) [ none ↦ some (e ∷ es) | some i ↦ moved i e es ]
      ≡ some (absorb ver e es)
unfolding find_index_with_ver_num absorb remove append_at
moved-absorb ver e [] = refl
moved-absorb ver (v, gens) ((v', gens') ∷ es) =
    let rest = moved-absorb ver (v', gens') es in
    elim (Bool-cases (v' == ver)) [
      | inl b ↦ rw (find_index_with_ver_num, absorb, b) refl
      | inr b ↦ elim (Option-cases (find_index_with_ver_num es ver)) [
        | inl n ↦
            let ih : some ((v', gens') ∷ es) ≡ some (absorb ver (v', gens') es) = rw n at rest in
            rw (find_index_with_ver_num, absorb, b, n) (ap (O.map (λ t. (v, gens) ∷ t)) ih)
        | inr (j, n) ↦
            let ih : moved j (v', gens') es ≡ some (absorb ver (v', gens') es) = rw n at rest in
            elim (Option-cases (remove j es)) [
              | inl r ↦ let bad = rw r at ih in cc
              | inr (x, r) ↦
                  let ih' = rw r at ih in
                  rw (find_index_with_ver_num, absorb, b, n, r)
                    (ap (O.map (λ t. (v, gens) ∷ t)) ih')
            ]
      ]
    ]

cleaned : {s t : DelGens} → some s ≡ some t → ◌≡◌ {A = DelGens × List ℤ} (s, []) (t, [])
cleaned e = ap (λ (o : Option DelGens). elim o [ none ↦ ([], []) | some u ↦ (u, []) ]) e

clean-absorb :
    (v ver : ℕ) (gens : List ℤ) (es : DelGens)
    → (v == ver) ≡ false
    → clean ((v, gens) ∷ es) ver ≡ (absorb ver (v, gens) es, [])
unfolding clean find_index_with_ver_num remove append_at
clean-absorb v ver gens es h =
    let rest = moved-absorb ver (v, gens) es in
    elim (Option-cases (find_index_with_ver_num es ver)) [
      | inl n ↦
          let m : some ((v, gens) ∷ es) ≡ some (absorb ver (v, gens) es) = rw n at rest in
          rw (clean, find_index_with_ver_num, h, n) (cleaned m)
      | inr (i, n) ↦
          let m : moved i (v, gens) es ≡ some (absorb ver (v, gens) es) = rw n at rest in
          elim (Option-cases (remove i es)) [
            | inl r ↦ let bad = rw r at m in cc
            | inr (x, r) ↦
                let m' = rw r at m in rw (clean, find_index_with_ver_num, h, n, r) (cleaned m')
          ]
    ]

absorb-waits :
    (g : ℤ) (ver v : ℕ) (gens : List ℤ) (es : DelGens)
    → waits g (absorb ver (v, gens) es) ≡ occurs g gens + waits g es
unfolding absorb
absorb-waits g ver v gens [] = refl
absorb-waits g ver v gens ((v', gens') ∷ es) =
    let ih = absorb-waits g ver v' gens' es in
    elim (Bool-cases (v' == ver)) [
      | inl b ↦ rw (absorb, b, occurs-append g gens gens') (omega arith)
      | inr b ↦ rw (absorb, b, ih) refl
    ]

absorb-waits_from :
    (u : ℕ) (g : ℤ) (ver v : ℕ) (gens : List ℤ) (es : DelGens)
    → (ver == u) ≡ false
    → waits_from u g ((v, gens) ∷ es) ≤ waits_from u g (absorb ver (v, gens) es)
unfolding absorb
absorb-waits_from u g ver v gens [] h = omega arith
absorb-waits_from u g ver v gens ((v', gens') ∷ es) h =
    let ih = absorb-waits_from u g ver v' gens' es h in
    elim (Bool-cases (v' == ver)) [
      | inl b ↦ rw (absorb, b) (ground (arith, occurs-append g gens gens'))
      | inr b ↦ rw (absorb, b) (ground (arith, absorb-waits g ver v' gens' es))
    ]

-- Cleaning a version deletes the tables that wait no longer, and each as often as it waited.
pub clean-waits :
    (g : ℤ) (es : DelGens) (ver : ℕ)
    → occurs g (clean es ver).1 + waits g (clean es ver).0 ≡ waits g es
unfolding clean find_index_with_ver_num
clean-waits g [] ver = refl
clean-waits g ((v, gens) ∷ es) ver = elim (Bool-cases (v == ver)) [
  | inl b ↦ rw (clean_first v ver gens es b) refl
  | inr b ↦ rw (clean-absorb v ver gens es b) (omega (arith, absorb-waits g ver v gens es))
]

pub clean-waits_from :
    (u : ℕ) (g : ℤ) (es : DelGens) (ver : ℕ)
    → (ver == u) ≡ false
    → waits_from u g es ≤ waits_from u g (clean es ver).0
unfolding clean find_index_with_ver_num
clean-waits_from u g [] ver h = omega arith
clean-waits_from u g ((v, gens) ∷ es) ver h = elim (Bool-cases (v == ver)) [
  | inl b ↦ rw (clean_first v ver gens es b) (ground arith)
  | inr b ↦ rw (clean-absorb v ver gens es b) (absorb-waits_from u g ver v gens es h)
]
