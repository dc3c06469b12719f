-- ===== src/Scope/Meet.antt =====
-- `meet` and `meet_by_key`: two ranges meet exactly when they share a key.
use kip_db.Base.{◌≡◌, Bool, true, ◌&&◌, ◌||◌, ◌↔◌, ◌⊎◌, inl, inr, arith}
use kip_db.Base.Order.{Bytes, bytes_ord, is_le, is_ge, is_ge-is_le, le_trans, le_refl, le_total}
use kip_db.Scope.{Scope, meet, meet_by_key}

-- The range is not empty.
abbrev pub IsRange : Scope → Type 0
IsRange s = is_le s.start s.end ≡ true

pub meet_by_key-bounds :
    (s : Scope) (key : Bytes)
    → (meet_by_key s key ≡ true) ↔ ((is_le s.start key ≡ true) × (is_le key s.end ≡ true))
unfolding meet_by_key
meet_by_key-bounds s key =
    (λ h. ground (arith, is_ge-is_le s.end key), λ h. ground (arith, is_ge-is_le s.end key))

abbrev Share : Scope → Scope → Type 0
Share s t = (key : Bytes) × (meet_by_key s key ≡ true) × (meet_by_key t key ≡ true)

or_and_cases :
    (a b c d e f : Bool)
    → (a && b || (c && d || (a && d || e && f))) ≡ true
    → ((a ≡ true) × (b ≡ true))
      ⊎ (((c ≡ true) × (d ≡ true)) ⊎ (((a ≡ true) × (d ≡ true)) ⊎ ((e ≡ true) × (f ≡ true))))
or_and_cases a b c d e f h = ground arith

meet_to_key : (s t : Scope) → IsRange s → IsRange t → meet s t ≡ true → Share s t
unfolding meet
meet_to_key s t hs ht h =
    elim (or_and_cases (is_le s.start t.start) (is_ge s.end t.start) (is_le s.start t.end)
      (is_ge s.end t.end) (is_ge s.start t.start) (is_le s.end t.end) h) [
        | inl (p, q) ↦ (
          t.start,
          by_bounds s t.start p (rw (← is_ge-is_le s.end t.start) q),
          by_bounds t t.start (le_refl t.start) ht,
        )
        | inr (inl (p, q)) ↦ (
          t.end,
          by_bounds s t.end p (rw (← is_ge-is_le s.end t.end) q),
          by_bounds t t.end ht (le_refl t.end),
        )
        | inr (inr (inl (p, q))) ↦ (
          t.end,
          by_bounds s t.end (le_trans s.start t.start t.end p ht)
              (rw (← is_ge-is_le s.end t.end) q),
          by_bounds t t.end ht (le_refl t.end),
        )
        | inr (inr (inr (p, q))) ↦ (
          s.start,
          by_bounds s s.start (le_refl s.start) hs,
          by_bounds t s.start (rw (← is_ge-is_le s.start t.start) p)
              (le_trans s.start s.end t.end hs q),
        )
      ]
  where
    by_bounds :
        (u : Scope) (key : Bytes)
        → is_le u.start key ≡ true
        → is_le key u.end ≡ true
        → meet_by_key u key ≡ true
    by_bounds u key a b = (meet_by_key-bounds u key).1 (a, b)

meet_of_key : (s t : Scope) → Share s t → meet s t ≡ true
unfolding meet
meet_of_key s t (key, hs, ht) =
    let (a, b) = (meet_by_key-bounds s key).0 hs in
    let (c, d) = (meet_by_key-bounds t key).0 ht in
    ground (
      arith,
      is_ge-is_le s.end t.start,
      is_ge-is_le s.end t.end,
      is_ge-is_le s.start t.start,
      le_total s.start t.start,
      le_total t.end s.end,
      le_trans t.start key s.end,
      le_trans s.start key t.end,
    )

-- Two scopes meet exactly when some key meets both, where neither range is empty.
pub meet-iff_share :
    (s t : Scope)
    → IsRange s
    → IsRange t
    → (meet s t ≡ true) ↔ ((key : Bytes) × (meet_by_key s key ≡ true) × (meet_by_key t key ≡ true))
meet-iff_share s t hs ht = (meet_to_key s t hs ht, meet_of_key s t)
