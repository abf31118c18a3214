-- ===== src/Flow/Age.antt =====
-- internal/flow/age.go: items counted by their age, a time.Duration in nanoseconds. An age that is
-- below zero falls in the first bucket, as 0 does.
use macguffin.Prelude.{
  ℕ, suc, ◌+◌, ◌*◌, ◌≡◌, arith, Bool, ◌&&◌, not, List, [], ◌∷◌, ltb, if◌then◌else◌, length, tally,
  map,
}

-- AgeBuckets
pub data AgeBucket : Type 0 where
  day week month older : AgeBucket

abbrev pub hour : ℕ
hour = 3600000000000

-- ageBucket
unfoldable pub age_bucket : ℕ → AgeBucket
age_bucket age =
    if ltb age (24 * hour)
    then day
    else if ltb age (168 * hour)
    then week
    else if ltb age (720 * hour)
    then month
    else older

-- AgeDistribution
pub record AgeDistribution : Type 0 where
  pub less_than_24h : ℕ
  pub one_day_to_week : ℕ
  pub one_week_to_month : ℕ
  pub over_a_month : ℕ
  pub total : ℕ

-- AgeDistribution.Count
unfoldable pub count : AgeDistribution → AgeBucket → ℕ
count d day = d.less_than_24h
count d week = d.one_day_to_week
count d month = d.one_week_to_month
count d older = d.over_a_month

unfoldable pub add_record : AgeBucket → AgeDistribution → AgeDistribution
add_record day d = record d { less_than_24h = suc d.less_than_24h; total = suc d.total }
add_record week d = record d { one_day_to_week = suc d.one_day_to_week; total = suc d.total }
add_record month d = record d { one_week_to_month = suc d.one_week_to_month; total = suc d.total }
add_record older d = record d { over_a_month = suc d.over_a_month; total = suc d.total }

unfoldable pub add_records : List AgeBucket → AgeDistribution → AgeDistribution
unfolding add_record
add_records [] d = d
add_records (b ∷ bs) d = add_records bs (add_record b d)

abbrev no_records : AgeDistribution
no_records = record {
  less_than_24h = 0;
  one_day_to_week = 0;
  one_week_to_month = 0;
  over_a_month = 0;
  total = 0;
}

-- ComputeAgeDistribution, from the records' buckets
unfoldable pub compute_age_distribution : List AgeBucket → AgeDistribution
unfolding add_records
compute_age_distribution bs = add_records bs no_records

-- an age from the first bound up to, but not including, the second
abbrev pub between : ℕ → ℕ → ℕ → Bool
between low high age = not (ltb age low) && ltb age high

add_records_lem :
    (ages : List ℕ) (d : AgeDistribution)
    → let e = add_records (map age_bucket ages) d in
      (e.less_than_24h ≡ d.less_than_24h + tally (between 0 (24 * hour)) ages)
      × (e.one_day_to_week ≡ d.one_day_to_week + tally (between (24 * hour) (168 * hour)) ages)
      × (e.one_week_to_month ≡ d.one_week_to_month + tally (between (168 * hour) (720 * hour)) ages)
      × (e.total ≡ d.total + length ages)
      × (e.total + (d.less_than_24h + d.one_day_to_week + d.one_week_to_month + d.over_a_month)
          ≡ d.total + (e.less_than_24h + e.one_day_to_week + e.one_week_to_month + e.over_a_month))
unfolding add_records age_bucket add_record
add_records_lem [] d = (omega arith, omega arith, omega arith, omega arith, omega arith)
add_records_lem (a ∷ ages) d = ground (arith, add_records_lem ages (add_record (age_bucket a) d))

-- The distribution of items' ages: every item is in one bucket, and the first three buckets hold the
-- items of under a day, of a day up to a week, and of a week up to thirty days.
pub compute_age_distribution-tally :
    (ages : List ℕ)
    → let d = compute_age_distribution (map age_bucket ages) in
      (count d day ≡ tally (between 0 (24 * hour)) ages)
      × (count d week ≡ tally (between (24 * hour) (168 * hour)) ages)
      × (count d month ≡ tally (between (168 * hour) (720 * hour)) ages)
      × (d.total ≡ length ages)
      × (count d day + count d week + count d month + count d older ≡ length ages)
unfolding compute_age_distribution count
compute_age_distribution-tally ages =
    let l = add_records_lem ages no_records in
    (
      omega (arith, l.0),
      omega (arith, l.1),
      omega (arith, l.2),
      omega (arith, l.3),
      omega (arith, l.3, l.4),
    )
