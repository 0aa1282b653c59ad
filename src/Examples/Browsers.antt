-- ===== src/Examples/Browsers.antt =====
-- A browser that asks too often, and the events that it is sent.
use uptime_mesh.Prelude.{ℕ, ◌≤◌, ◌≡◌, refl, List, [], ◌∷◌, none, String, length, lookup}
use uptime_mesh.WebHub.{WebEvent, Writing, new_browser, web_buffer_size}
use uptime_mesh.WebHub.Requests.{let_through, times_of, spread, let_through-spread}
use uptime_mesh.WebHub.Delivery.{
  Happens, sends, writes, closes, all_happens, sent_in, IsPartOf, on_its_way, all_happens-IsPartOf,
}

abbrev asks : List (String × ℕ)
asks = ("strips", 10) ∷ ("strips", 12) ∷ ("other", 13) ∷ ("strips", 15) ∷ ("strips", 19) ∷ []

two_of_four : spread 5 none (times_of "strips" asks) ≡ 10 ∷ 15 ∷ []
two_of_four = refl

let_through-spread_example :
    let_through [] "strips" 5 asks ≡ spread 5 (lookup "strips" []) (times_of "strips" asks)
let_through-spread_example = let_through-spread asks [] "strips" 5

abbrev event : String → WebEvent
event payload = record { type = "round_finalized"; payload = payload }

abbrev seen : List Happens
seen =
    sends (event "r1")
    ∷ writes Writing.written
    ∷ sends (event "lost")
    ∷ writes Writing.no_text
    ∷ sends (event "r2")
    ∷ closes
    ∷ sends (event "r3")
    ∷ []

all_happens-IsPartOf_example :
    IsPartOf (on_its_way (all_happens (new_browser "b1") seen)) (sent_in seen)
    × (length (all_happens (new_browser "b1") seen).queue ≤ web_buffer_size)
all_happens-IsPartOf_example = all_happens-IsPartOf seen "b1"
