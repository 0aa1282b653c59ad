-- ===== src/WebHub.antt =====
-- dashboard/internal/webhub/webhub.go: the connections of browsers, the events that they are sent and
-- the limit on their requests. A connection is known by a key. The sockets are not modelled, but for
-- what the write loop has written to one; nor is the wait of `SendWait`.
pub mod Requests
pub mod Delivery
use uptime_mesh.Prelude.{
  ℕ, ◌+◌, Bool, true, false, not, ◌&&◌, List, [], ◌∷◌, ◌++◌, Option, none, some, String, str_eq,
  ltb, length, if◌then◌else◌, lookup, insert, map,
}

pub record WebEvent : Type 0 where
  pub type : String
  pub payload : String

-- The capacity of `send`.
abbrev pub web_buffer_size : ℕ
web_buffer_size = 32

-- `queue` is the buffer of `send`, oldest first; `written` what the write loop has taken from it.
pub record Browser : Type 0 where
  pub key : String
  pub queue : List WebEvent
  pub written : List WebEvent
  pub is_closed : Bool
  pub throttled : List (String × ℕ)

-- `Serve` begins.
abbrev pub new_browser : String → Browser
new_browser key = record { key = key; queue = []; written = []; is_closed = false; throttled = [] }

-- `Throttle`: the map, and whether the request is let through. `now.Sub(last) < minGap` is written
-- as a sum, as the clock may go back.
unfoldable pub throttle : List (String × ℕ) → String → ℕ → ℕ → List (String × ℕ) × Bool
throttle throttled key min_gap now = elim (lookup key throttled) [
  | none ↦ (insert key now throttled, true)
  | some last ↦
      if ltb now (last + min_gap) then (throttled, false) else (insert key now throttled, true)
]

-- `Send`: an event for which there is no room is dropped.
unfoldable pub send_event : Browser → WebEvent → Browser
send_event c ev =
    if c.is_closed
    then c
    else if ltb (length c.queue) web_buffer_size
    then record c { queue = c.queue ++ (ev ∷ []) }
    else c

unfoldable pub broadcast : List Browser → WebEvent → List Browser
broadcast conns ev = map (λ c. send_event c ev) conns

-- How the writing of an event ends: it is written, `json.Marshal` fails, or the socket does.
pub data Writing : Type 0 where
  written no_text broken : Writing

-- A turn of `writePump` at an event. An event of which no text can be made is dropped; where the
-- socket fails, the loop ends and closes the connection.
unfoldable pub written_as : Writing → Browser → WebEvent → List WebEvent → Browser
written_as Writing.written c ev queue = record c { queue = queue; written = c.written ++ (ev ∷ []) }
written_as Writing.no_text c ev queue = record c { queue = queue }
written_as Writing.broken c ev queue = record c { queue = queue; is_closed = true }

unfoldable pub write_one : Browser → Writing → Browser
write_one c how = elim c.queue [
  | [] ↦ c
  | ev ∷ queue ↦ if c.is_closed then c else written_as how c ev queue
]

unfoldable pub close_browser : Browser → Browser
close_browser c = record c { is_closed = true }
