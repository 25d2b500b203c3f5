-- ===== src/Admin/Top.antt =====
-- The tables of the busiest clients in internal/admin/admin.go: topKnown and topUnknown.
use mathlib.Core.List.{Permᴰ}
use api_ratelimiter.Base.{
  ℕ, ◌≡◌, refl, ◌∙◌, ap, sym, Bool, List, [], ◌∷◌, map, ℤ, Text, codes, text_eq, text_lt,
  has_prefix, trim_prefix, ltb, ltb_ℤ, eqb_ℤ, length, take, arith, if◌then◌else◌,
}
use api_ratelimiter.Base.Dict.{Dict}
use api_ratelimiter.Counter.Known
use api_ratelimiter.Counter.Unknown
use api_ratelimiter.Counter.Known.{KnownCounter, KnownMap, KnownSnapshot}
use api_ratelimiter.Counter.Unknown.{UnknownMap, UnknownSnapshot}
use api_ratelimiter.Admin.Sort.{
  sort_by, IsOrder, sort_by-perm, sort_by-map, less_at, text_lt-IsOrder,
}

abbrev pub top_n : ℕ
top_n = 25

pub record KnownTopRow : Type 0 where
  pub key : Text
  pub total : ℤ
  pub burst_hits : ℤ
  pub violation_hits : ℤ

pub record UnknownTopRow : Type 0 where
  pub key : Text
  pub total : ℤ
  pub burst_hits : ℤ
  pub abuse_hits : ℤ

-- The comparison of each sort: the larger metric first, and the smaller key among equals.
unfoldable pub before {ℓ} : {A : Type ℓ} → (A → ℤ) → (A → Text) → A → A → Bool
before metric key x y =
    if eqb_ℤ (metric x) (metric y) then text_lt (key x) (key y) else ltb_ℤ (metric y) (metric x)

-- resolveKnownSort
unfoldable pub resolve_known_sort : Text → Text
resolve_known_sort sort =
    if text_eq sort (codes "total")
    then sort
    else if text_eq sort (codes "burst")
    then sort
    else codes "violations"

-- resolveUnknownSort
unfoldable pub resolve_unknown_sort : Text → Text
resolve_unknown_sort sort =
    if text_eq sort (codes "total")
    then sort
    else if text_eq sort (codes "burst")
    then sort
    else codes "abuse"

known_metric : Text → KnownTopRow → ℤ
known_metric sort r =
    if text_eq sort (codes "total")
    then r.total
    else if text_eq sort (codes "burst")
    then r.burst_hits
    else r.violation_hits

unknown_metric : Text → UnknownTopRow → ℤ
unknown_metric sort r =
    if text_eq sort (codes "total")
    then r.total
    else if text_eq sort (codes "burst")
    then r.burst_hits
    else r.abuse_hits

-- if len(rows) > topN { rows = rows[:topN] }
cut {ℓ} : {A : Type ℓ} → List A → List A
cut rows = if ltb top_n (length rows) then take top_n rows else rows

known_row : KnownSnapshot → KnownTopRow
known_row (k, c) = record {
  key = k;
  total = c.total;
  burst_hits = c.burst_hits;
  violation_hits = c.violation_hits;
}

-- topKnown
unfoldable pub top_known : Text → KnownMap → List KnownTopRow
unfolding cut known_row known_metric
top_known sort m =
    cut (sort_by (before (known_metric sort) (λ r. r.key)) (map known_row (Known.snapshot m)))

-- The loop of topUnknown that builds the rows.
unknown_rows : Text → List UnknownSnapshot → List UnknownTopRow
unknown_rows prefix [] = []
unknown_rows prefix ((k, c) ∷ es) =
    let rest = unknown_rows prefix es in
    if has_prefix k prefix
    then record {
      key = trim_prefix k prefix;
      total = c.total;
      burst_hits = c.burst_hits;
      abuse_hits = c.abuse_hits;
    }
      ∷ rest
    else rest

-- topUnknown
unfoldable pub top_unknown : Text → Text → UnknownMap → List UnknownTopRow
unfolding cut unknown_rows unknown_metric
top_unknown prefix sort m =
    cut (
      sort_by (before (unknown_metric sort) (λ r. r.key))
        (unknown_rows prefix (Unknown.snapshot m)))

before-IsOrder :
    {K A : Type 0} (metric : A → ℤ) (key : A → Text) (f : K → A)
    → ((j k : K) → key (f j) ≡ key (f k) → j ≡ k)
    → IsOrder (less_at (before metric key) f)
unfolding before
before-IsOrder metric key f inj = record {
  asym = λ x y. ground (arith, text_lt-IsOrder.asym (key (f x)) (key (f y)));
  trans = λ x y z. ground (arith, text_lt-IsOrder.trans (key (f x)) (key (f y)) (key (f z)));
  total = λ x y p q. inj x y (ground (arith, text_lt-IsOrder.total (key (f x)) (key (f y)), p, q));
}

-- The entries of a map with the counter that each key has.
abbrev pub entries_of : List Text → (Text → KnownCounter) → Dict KnownCounter
entries_of keys counter = map (λ k. (k, counter k)) keys

module _ (metric : KnownTopRow → ℤ) (counter : Text → KnownCounter) where
  row_of : Text → KnownTopRow
  unfolding known_row
  row_of k = known_row (k, counter k)

  row_of-map : (keys : List Text) → map known_row (entries_of keys counter) ≡ map row_of keys
  unfolding row_of
  row_of-map [] = refl
  row_of-map (k ∷ keys) = ap (◌∷◌ (known_row (k, counter k))) (row_of-map keys)

  abbrev rows_of : List Text → List KnownTopRow
  rows_of keys = sort_by (before metric (λ r. r.key)) (map known_row (entries_of keys counter))

  row_of-sort :
      (keys : List Text)
      → rows_of keys ≡ map row_of (sort_by (less_at (before metric (λ r. r.key)) row_of) keys)
  row_of-sort keys =
      ap (sort_by (before metric (λ r. r.key))) (row_of-map keys)
      ∙ sort_by-map (before metric (λ r. r.key)) row_of keys

  rows_of-perm : (keys keys' : List Text) → Permᴰ keys keys' → rows_of keys ≡ rows_of keys'
  unfolding row_of known_row
  rows_of-perm keys keys' p =
      row_of-sort keys
      ∙ ap (map row_of) (sort_by-perm (before-IsOrder metric (λ r. r.key) row_of (λ j k e. e)) p)
      ∙ sym (row_of-sort keys')

-- The table of known keys does not depend on the order in which a range over the map meets its
-- entries: with any sort column, two orders of the same keys with the same counters give the same
-- rows in the same order.
pub top_known-perm :
    (sort : Text) (counter : Text → KnownCounter) (keys keys' : List Text) (w : ℕ)
    → Permᴰ keys keys'
    → top_known sort (record { counters = entries_of keys counter; window_s = w })
      ≡ top_known sort (record { counters = entries_of keys' counter; window_s = w })
unfolding top_known Known.snapshot
top_known-perm sort counter keys keys' w p =
    ap cut (rows_of-perm (known_metric sort) counter keys keys' p)
