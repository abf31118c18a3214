-- ===== src/Tests/Reports.antt =====
-- Suggestions, bookings and ages at concrete inputs.
use macguffin.Prelude.{
  ℕ, ◌+◌, ◌*◌, ◌≡◌, ◌≤◌, refl, List, [], ◌∷◌, Bytes, codes, some, All, length, tally, map,
}
use macguffin.Mail.Suggest
use macguffin.Mail.Distance
use macguffin.Spend.Claims
use macguffin.Spend.Booking
use macguffin.Flow.Age

abbrev names : List Bytes
names = codes "mayor" ∷ codes "major" ∷ codes "daniel" ∷ []

swapped : Suggest.edit_distance (codes "maoyr") (codes "mayor") ≡ 1
unfolding Suggest.edit_distance
swapped = refl

suggest-IsCorrection_example :
    All (Suggest.IsCorrection (codes "mayro")) (Suggest.suggest names (codes "mayro") 2)
    × (length (Suggest.suggest names (codes "mayro") 2) ≤ 2)
suggest-IsCorrection_example = Suggest.suggest-IsCorrection names (codes "mayro") 2

abbrev entry : Bytes → Bytes → ℕ → Claims.Entry
entry kind item ts = record { kind = kind; actor = codes "cat"; item = item; ts = some ts }

-- a claim that is released, and one that stays open
abbrev log : List Claims.Entry
log =
    entry (codes "work.claim") (codes "mg-1") 10
    ∷ entry (codes "work.done") (codes "mg-1") 20
    ∷ entry (codes "work.claim") (codes "mg-2") 15
    ∷ []

attribute-build_claim_intervals_example :
    Booking.IsBooking
      (Claims.attribute (Claims.build_claim_intervals log) (codes "cat") 17)
      (codes "cat")
      17
      (Claims.build_claim_intervals log)
attribute-build_claim_intervals_example =
    Booking.attribute-build_claim_intervals log (codes "cat") 17

abbrev ages : List ℕ
ages = 5 ∷ 30 * Age.hour ∷ 1000 * Age.hour ∷ []

compute_age_distribution-tally_example :
    let d = Age.compute_age_distribution (map Age.age_bucket ages) in
    (Age.count d Age.day ≡ tally (Age.between 0 (24 * Age.hour)) ages)
    × (Age.count d Age.week ≡ tally (Age.between (24 * Age.hour) (168 * Age.hour)) ages)
    × (Age.count d Age.month ≡ tally (Age.between (168 * Age.hour) (720 * Age.hour)) ages)
    × (d.total ≡ length ages)
    × (Age.count d Age.day + Age.count d Age.week + Age.count d Age.month + Age.count d Age.older
        ≡ length ages)
compute_age_distribution-tally_example = Age.compute_age_distribution-tally ages

edit_distance-alignment_example :
    Suggest.edit_distance (codes "maoyr") (codes "mayor")
    ≡ Distance.alignment (Distance.turn (codes "maoyr") []) (Distance.turn (codes "mayor") [])
edit_distance-alignment_example = Distance.edit_distance-alignment (codes "maoyr") (codes "mayor")
