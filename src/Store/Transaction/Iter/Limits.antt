-- ===== src/Store/Transaction/Iter/Limits.antt =====
-- The conditions on the bounds, and sorted items at them.
use kip_db.Base.{◌≡◌, refl, true, false, not, none, some, List, [], ◌∷◌, if◌then◌else◌, arith}
use kip_db.Base.Order.{
  Bytes, bytes_ord, bytes_cmp, bytes_cmp_flip, bytes_eq_of_cmp, bytes_lt_trans, lt, Bound, included,
  excluded, unbounded, over, under,
}
use kip_db.Base.SortedMap.{Above, between}
use kip_db.Data.{KeyValue}
use kip_db.Store.Transaction.Iter.{is_below, cut}

pub is_below-over : (min : Bound Bytes) (e : KeyValue) → is_below min (some e) ≡ not (over min e.0)
unfolding is_below
is_below-over (included key) e = ground (arith, bytes_cmp_flip key e.0)
is_below-over (excluded key) e = ground (arith, bytes_cmp_flip key e.0)
is_below-over unbounded e = refl

pub cut-under :
    (max : Bound Bytes) (e : KeyValue) → cut max (some e) ≡ (if under max e.0 then some e else none)
unfolding cut
cut-under (included key) e = refl
cut-under (excluded key) e = refl
cut-under unbounded e = refl

over-lt :
    (min : Bound Bytes) (a b : Bytes) → bytes_cmp a b ≡ lt → over min a ≡ true → over min b ≡ true
over-lt (included key) a b h o = ground (arith, bytes_lt_trans key a b, bytes_eq_of_cmp key a)
over-lt (excluded key) a b h o = ground (arith, bytes_lt_trans key a b)
over-lt unbounded a b h o = refl

under-lt :
    (max : Bound Bytes) (a b : Bytes)
    → bytes_cmp a b ≡ lt
    → under max a ≡ false
    → under max b ≡ false
under-lt (included key) a b h u = ground (arith, bytes_lt_trans a b key, bytes_eq_of_cmp b key)
under-lt (excluded key) a b h u = ground (arith, bytes_lt_trans a b key)
under-lt unbounded a b h u = cc

-- Past the maximum nothing follows.
pub between-past :
    (min max : Bound Bytes) (k : Bytes) (items : List KeyValue)
    → Above k items
    → under max k ≡ false
    → between min max items ≡ []
between-past min max k [] a u = refl
between-past min max k ((j, v) ∷ items) (less, a) u =
    let past = under-lt max k j less u in ground (arith, between-past min max k items a u)

-- From the first item at or past the minimum, all are.
pub between-over :
    (min max : Bound Bytes) (k : Bytes) (items : List KeyValue)
    → Above k items
    → over min k ≡ true
    → between min max items ≡ between unbounded max items
between-over min max k [] a o = refl
between-over min max k ((j, v) ∷ items) (less, a) o =
    let over_j = over-lt min k j less o in ground (arith, between-over min max k items a o)
