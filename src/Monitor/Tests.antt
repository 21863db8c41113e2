-- ===== src/Monitor/Tests.antt =====
-- A tenant that watches one EAN asks for three, one of them twice.
use jolly_jesters_mvp.Prelude.{none, String, List, [], ◌∷◌, countb, ◌≡◌, refl}
use jolly_jesters_mvp.Prelude.Int.{pos}
use jolly_jesters_mvp.Monitor.{MonitoredEan, is_watch, new_watch, bulk_watch}

abbrev table : List MonitoredEan
table = new_watch 5 "t" "590" none (pos 0) 60 ∷ []

abbrev eans : List String
eans = "591" ∷ "590" ∷ "591" ∷ []

twice : countb (is_watch "t" "591") (bulk_watch 9 "t" eans 60 table).1 ≡ 2
unfolding bulk_watch
twice = refl
