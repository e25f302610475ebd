-- ===== src/Examples/Histories.antt =====
-- Tests of calls one after the other, and instances of the theorems about them.
use digital_garden_visitor_c.Common.{◌≡◌, refl, arith, List, [], ◌∷◌, none, some, codes, ℕ}
use digital_garden_visitor_c.Store.Serial.{Visit, counts, empty_view, serve_all}
use digital_garden_visitor_c.Store.Serial.Histories.{serve_all-counts}
use digital_garden_visitor_c.Store.Serial.Tallies.{tallies, serve_all-tallies}
use digital_garden_visitor_c.Examples.Codec.{codec, codec-CborLaws}
use digital_garden_visitor_c.Examples.Storage.{visitor, system_time}

abbrev at : ℕ → ℕ → Visit
at tag offset = record { visitor = visitor tag offset; now = system_time offset }

-- Two visitors; the first comes back within two hours, then again, and then too late.
abbrev day : List Visit
day = at 1 7200 ∷ at 2 8000 ∷ at 1 14000 ∷ at 1 20000 ∷ at 2 20001 ∷ at 1 27200 ∷ []

tallied : tallies [] 0 day ≡ 1 ∷ 2 ∷ 2 ∷ 2 ∷ 3 ∷ 4 ∷ []
tallied = refl

serve_all-counts_example :
    serve_all codec (codes "test") (codes "default") day none ≡ some (counts day empty_view)
serve_all-counts_example =
    serve_all-counts codec codec-CborLaws (codes "test") (codes "default") day (omega arith)
      (omega arith)

serve_all-tallies_example :
    serve_all codec (codes "test") (codes "default") day none ≡ some (tallies [] 0 day)
serve_all-tallies_example =
    serve_all-tallies codec (codes "test") (codes "default") day codec-CborLaws (omega arith)
      (omega arith) (omega arith)
