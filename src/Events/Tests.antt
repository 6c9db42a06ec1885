-- ===== src/Events/Tests.antt =====
-- Runs of the bus of ais_server/events.py.
use ais_server.Prelude.{ℕ, min, ◌≡◌, refl, List, [], ◌∷◌}
use ais_server.Prelude.Text.{Text, codes}
use ais_server.Prelude.Int.{pos}
use ais_server.Events.{new, recent}
use ais_server.Prelude.Newest.{newest}
use ais_server.Events.Recent.{publish_all, payloads, recent-publish_all}

abbrev published : List (Text × ℕ)
published =
    (codes "incoming", 1)
    ∷ (codes "outgoing", 7)
    ∷ (codes "incoming", 2)
    ∷ (codes "incoming", 3)
    ∷ (codes "incoming", 4)
    ∷ []

recent-publish_all_case :
    recent (publish_all (new 3) published) (codes "incoming") (pos 2)
    ≡ newest (min 2 3) (payloads (codes "incoming") published)
recent-publish_all_case = recent-publish_all 3 (codes "incoming") 1 published

two_newest : newest 2 (payloads (codes "incoming") published) ≡ 3 ∷ 4 ∷ []
unfolding payloads
two_newest = refl
