-- ===== src/Cleaner/Keeps.antt =====
-- The cleaner deletes each table once, and none that a version still listed may read.
use kip_db.Base.{
  ℕ, ◌+◌, ◌≤◌, ◌≡◌, refl, ap, ◌∙◌, Bool-cases, inl, inr, Bool, true, false, List, [], ◌∷◌, ◌++◌,
  map, ◌==◌, if◌then◌else◌, arith,
}
use kip_db.Base.Int.{ℤ, int_ord}
use kip_db.Cleaner.{
  CleanTag, clean_version, add, DelGens, clean, receive, receive_all, clean_all, listen,
}
use kip_db.Cleaner.Waits.{
  occurs, occurs-append, waits, waits_from, clean_first, clean-waits, clean-waits_from,
}

-- How often the tags name a generation.
abbrev pub added : ℤ → List CleanTag → ℕ
added g [] = 0
added g (clean_version v ∷ tags) = added g tags
added g (add v gens ∷ tags) = occurs g gens + added g tags

-- No tag cleans the version.
abbrev pub in_use : ℕ → List CleanTag → Bool
in_use u [] = true
in_use u (clean_version v ∷ tags) = if v == u then false else in_use u tags
in_use u (add v gens ∷ tags) = in_use u tags

waits-append :
    (g : ℤ) (es : DelGens) (v : ℕ) (gens : List ℤ)
    → waits g (es ++ (v, gens) ∷ []) ≡ waits g es + occurs g gens
waits-append g [] v gens = omega arith
waits-append g ((w, hs) ∷ es) v gens = omega (arith, waits-append g es v gens)

waits_from-append :
    (u : ℕ) (g : ℤ) (es : DelGens) (v : ℕ) (gens : List ℤ)
    → waits_from u g es ≤ waits_from u g (es ++ (v, gens) ∷ [])
waits_from-append u g [] v gens = omega arith
waits_from-append u g ((w, hs) ∷ es) v gens =
    ground (arith, waits-append g es v gens, waits_from-append u g es v gens)

waits_from-waits : (u : ℕ) (g : ℤ) (es : DelGens) → waits_from u g es ≤ waits g es
waits_from-waits u g [] = omega arith
waits_from-waits u g ((v, gens) ∷ es) = ground (arith, waits_from-waits u g es)

receive_all-waits :
    (g : ℤ) (es : DelGens) (tags : List CleanTag)
    → occurs g (receive_all es tags).1 + waits g (receive_all es tags).0 ≡ waits g es + added g tags
unfolding receive_all receive
receive_all-waits g es [] = omega arith
receive_all-waits g es (clean_version v ∷ tags) = omega (
  arith,
  clean-waits g es v,
  occurs-append g (clean es v).1 (receive_all (clean es v).0 tags).1,
  receive_all-waits g (clean es v).0 tags,
)
receive_all-waits g es (add v gens ∷ tags) =
    omega (arith, waits-append g es v gens, receive_all-waits g (es ++ (v, gens) ∷ []) tags)

receive_all-waits_from :
    (u : ℕ) (g : ℤ) (es : DelGens) (tags : List CleanTag)
    → in_use u tags ≡ true
    → waits_from u g es ≤ waits_from u g (receive_all es tags).0
unfolding receive_all receive
receive_all-waits_from u g es [] h = omega arith
receive_all-waits_from u g es (clean_version v ∷ tags) h = elim (Bool-cases (v == u)) [
  | inl b ↦ let bad = rw b at h in cc
  | inr b ↦
      let h' = rw b at h in
      let ih = receive_all-waits_from u g (clean es v).0 tags h' in
      omega (arith, clean-waits_from u g es v b)
]
receive_all-waits_from u g es (add v gens ∷ tags) h =
    let ih = receive_all-waits_from u g (es ++ (v, gens) ∷ []) tags h in
    omega (arith, waits_from-append u g es v gens)

-- A table that was only marked for deletion in a version or later ones is not deleted while that
-- version is in use, whatever other versions are dropped or added.
pub receive_all-in_use :
    (u : ℕ) (g : ℤ) (es : DelGens) (tags : List CleanTag)
    → in_use u tags ≡ true
    → waits_from u g es ≡ waits g es + added g tags
    → occurs g (receive_all es tags).1 ≡ 0
receive_all-in_use u g es tags h only = omega (
  arith,
  receive_all-waits g es tags,
  receive_all-waits_from u g es tags h,
  waits_from-waits u g (receive_all es tags).0,
)

clean_all-waits :
    (g : ℤ) (es : DelGens)
    → (occurs g (clean_all es (map (λ (e : ℕ × List ℤ). e.0) es)).1 ≡ waits g es)
      × ((clean_all es (map (λ (e : ℕ × List ℤ). e.0) es)).0 ≡ [])
unfolding clean_all
clean_all-waits g [] = (refl, refl)
clean_all-waits g ((v, gens) ∷ es) =
    let (count, done) = clean_all-waits g es in
    let vs = map (λ (e : ℕ × List ℤ). e.0) es in
    rw (clean_all, clean_first v v gens es (ground arith))
      (occurs-append g gens (clean_all es vs).1 ∙ ap (λ n. occurs g gens + n) count, done)

-- When the channel is closed, every table marked for deletion has been deleted exactly as often as
-- it was marked, and none is left.
pub listen-added :
    (g : ℤ) (es : DelGens) (tags : List CleanTag)
    → (occurs g (listen es tags).1 ≡ waits g es + added g tags) × ((listen es tags).0 ≡ [])
unfolding listen
listen-added g es tags =
    let rest = (receive_all es tags).0 in
    let vs = map (λ (e : ℕ × List ℤ). e.0) rest in
    let (count, done) = clean_all-waits g rest in
    (
      omega (
        arith,
        count,
        occurs-append g (receive_all es tags).1 (clean_all rest vs).1,
        receive_all-waits g es tags,
      ),
      done,
    )
