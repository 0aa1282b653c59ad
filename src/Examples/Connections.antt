-- ===== src/Examples/Connections.antt =====
-- An agent that connects a second time before its first connection is noticed to be gone.
use uptime_mesh.Prelude.{◌≡◌, refl, false, List, [], ◌∷◌, lookup, insert}
use uptime_mesh.Hub.{Conn, register, unregister, get_conn, give_way, send_to_agent}
use uptime_mesh.Hub.Registry.{
  Use, registers, unregisters, sends, OneLive, step, steps, empty_hub, steps-OneLive,
}
use uptime_mesh.Hub.Presence.{Truthful, steps-Truthful}
use uptime_mesh.Examples.Data.{tokyo, task}

abbrev conn : Conn
conn = record {
  agent_id = tokyo;
  name = "Tokyo";
  last_seen = 0;
  queue = [];
  done = false;
  pongs = [];
}

abbrev reconnects : List Use
reconnects =
    registers "first" conn ∷ sends tokyo task ∷ registers "second" conn ∷ unregisters "first" ∷ []

second_stays : (steps empty_hub reconnects).conns ≡ (tokyo, "second") ∷ []
unfolding steps step register unregister send_to_agent lookup insert give_way get_conn
second_stays = refl

steps-OneLive_example : OneLive (steps empty_hub reconnects)
steps-OneLive_example = steps-OneLive reconnects

steps-Truthful_example : Truthful (steps empty_hub reconnects)
steps-Truthful_example = steps-Truthful reconnects
