-- ===== src/Hub/Registry.antt =====
-- Sequences of the methods of dashboard/internal/hub/hub.go, and the connections that they leave.
use mathlib.Core.Path.{subst}
use uptime_mesh.Prelude.{
  ◌≡◌, refl, sym, true, false, List, [], ◌∷◌, none, some, String, remove, Bool-cases, arith, lookup,
  insert, delete, lookup-insert, lookup-delete, str_eq, eq_iff, Option-cases, inl, inr,
}
use uptime_mesh.Scheduler.Flight.{Envelope}
use uptime_mesh.Hub.{
  Conn, Hub, close_conn, give_way, register, is_current, unregister, get_conn, rename_conn,
  force_disconnect, send_conn, send_to_agent, deliver_pong,
}

-- One method of the hub.
pub data Use : Type 0 where
  registers : String → Conn → Use
  unregisters : String → Use
  disconnects : String → Use
  renames : String → String → Use
  sends : String → Envelope → Use
  pongs_in : String → String → Use

unfoldable pub step : Hub → Use → Hub
step h (registers key c) = register h key c
step h (unregisters key) = unregister h key
step h (disconnects agent) = force_disconnect h agent
step h (renames agent name) = rename_conn h agent name
step h (sends agent env) = (send_to_agent h agent env).0
step h (pongs_in key ping_id) = deliver_pong h key ping_id

unfoldable pub steps : Hub → List Use → Hub
steps h [] = h
steps h (u ∷ us) = steps (step h u) us

-- A connection that is not closed is the current one of its agent.
abbrev pub OneLive : Hub → Type 0
OneLive h =
    (key : String) (c : Conn)
    → lookup key h.heap ≡ some c
    → c.done ≡ false
    → lookup c.agent_id h.conns ≡ some key

pub send_conn-kept :
    (c : Conn) (env : Envelope)
    → ((send_conn c env).0.agent_id ≡ c.agent_id) × ((send_conn c env).0.done ≡ c.done)
unfolding send_conn
send_conn-kept c env = ground arith

pub lookup-close_conn :
    (heap : List (String × Conn)) (key j : String) (c : Conn)
    → lookup j (close_conn heap key) ≡ some c
    → c.done ≡ false
    → (lookup j heap ≡ some c) × (str_eq key j ≡ false)
unfolding close_conn
lookup-close_conn heap key j c e d = elim (Option-cases (lookup key heap)) [
  | inl n ↦ ground (arith, eq_iff key j)
  | inr (o, n) ↦ ground (arith, eq_iff key j, lookup-insert key j (record o { done = true }) heap)
]

-- A change of a connection that keeps its agent and whether it is closed.
pub OneLive-insert :
    (h : Hub) (key : String) (c d : Conn)
    → lookup key h.heap ≡ some c
    → d.agent_id ≡ c.agent_id
    → d.done ≡ c.done
    → OneLive h
    → OneLive (record h { heap = insert key d h.heap })
OneLive-insert h key c d e a n live j x f l =
    ground (arith, eq_iff key j, lookup-insert key j d h.heap, live key c, live j x)

pub OneLive-close_conn :
    (h : Hub) (key : String) → OneLive h → OneLive (record h { heap = close_conn h.heap key })
OneLive-close_conn h key live j x f l =
    ground (arith, live j x, lookup-close_conn h.heap key j x f l)

pub get_conn-lookup :
    (h : Hub) (agent key : String) (c : Conn)
    → get_conn h agent ≡ some (key, c)
    → lookup key h.heap ≡ some c
unfolding get_conn
get_conn-lookup h agent key c e = ground arith

give_way-OneLive :
    (h : Hub) (key agent : String)
    → OneLive h
    → (j : String) (x : Conn) → lookup j (give_way h key agent) ≡ some x
    → x.done ≡ false
    → str_eq key j ≡ false
    → (lookup x.agent_id h.conns ≡ some j) × (str_eq agent x.agent_id ≡ false)
unfolding give_way
give_way-OneLive h key agent live j x e d n = elim (Option-cases (lookup agent h.conns)) [
  | inl none_yet ↦ ground (arith, live j x, eq_iff agent x.agent_id)
  | inr (old, o) ↦ ground (
    arith,
    live j x,
    lookup-close_conn h.heap old j x,
    eq_iff agent x.agent_id,
    eq_iff old key,
    eq_iff old j,
    eq_iff key j,
  )
]

pub register-OneLive : (h : Hub) (key : String) (c : Conn) → OneLive h → OneLive (register h key c)
unfolding register
register-OneLive h key c live j x e d = ground (
  arith,
  lookup-insert key j c (give_way h key c.agent_id),
  lookup-insert c.agent_id x.agent_id key h.conns,
  give_way-OneLive h key c.agent_id live j x,
  eq_iff key j,
  eq_iff c.agent_id x.agent_id,
)

leave-OneLive :
    (h : Hub) (key : String) (c : Conn)
    → lookup key h.heap ≡ some c
    → is_current h key c ≡ true
    → OneLive h
    → (j : String) (x : Conn) → lookup j (close_conn h.heap key) ≡ some x
    → x.done ≡ false
    → lookup x.agent_id (delete c.agent_id h.conns) ≡ some j
unfolding is_current
leave-OneLive h key c e cur live j x f d = ground (
  arith,
  lookup-close_conn h.heap key j x f d,
  live j x,
  lookup-delete c.agent_id x.agent_id h.conns,
  eq_iff c.agent_id x.agent_id,
  eq_iff key j,
  eq_iff j key,
)

pub unregister-OneLive : (h : Hub) (key : String) → OneLive h → OneLive (unregister h key)
unfolding unregister
unregister-OneLive h key live j x f d = elim (Option-cases (lookup key h.heap)) [
  | inl n ↦ ground (arith, live j x)
  | inr (c, n) ↦ elim (Bool-cases (is_current h key c)) [
    | inl cur ↦ ground (arith, leave-OneLive h key c n cur live j x)
    | inr old ↦ ground (arith, OneLive-close_conn h key live j x)
  ]
]

-- A method that finds a connection by its agent and changes it.
get_conn-OneLive :
    (h : Hub) (agent : String) (g : Hub)
    → (get_conn h agent ≡ none → g ≡ h)
    → ((key : String) (c : Conn) → get_conn h agent ≡ some (key, c) → OneLive g)
    → OneLive h
    → OneLive g
get_conn-OneLive h agent g idle moved live = elim (Option-cases (get_conn h agent)) [
  | inl n ↦ subst OneLive (sym (idle n)) live
  | inr ((key, c), n) ↦ moved key c n
]

pub step-OneLive : (h : Hub) (u : Use) → OneLive h → OneLive (step h u)
unfolding step rename_conn force_disconnect send_to_agent deliver_pong
step-OneLive h (registers key c) live j x f d = register-OneLive h key c live j x f d
step-OneLive h (unregisters key) live j x f d = unregister-OneLive h key live j x f d
step-OneLive h (disconnects agent) live j' x' f' d' =
    get_conn-OneLive h agent (force_disconnect h agent) (λ n. ground arith)
      (λ key c n j x f d. ground (arith, OneLive-close_conn h key live j x)) live j' x' f' d'
step-OneLive h (renames agent name) live j' x' f' d' =
    get_conn-OneLive h agent (rename_conn h agent name) (λ n. ground arith)
      (λ key c n j x f d. ground (
        arith,
        OneLive-insert h key c (record c { name = name }) (get_conn-lookup h agent key c n) refl
            refl live j x,
      ))
      live j' x' f' d'
step-OneLive h (sends agent env) live j' x' f' d' =
    get_conn-OneLive h agent (send_to_agent h agent env).0 (λ n. ground arith)
      (λ key c n j x f d. ground (
        arith,
        OneLive-insert h key c (send_conn c env).0 (get_conn-lookup h agent key c n)
            (send_conn-kept c env).0 (send_conn-kept c env).1 live j x,
      ))
      live j' x' f' d'
step-OneLive h (pongs_in key ping_id) live j x f d = elim (Option-cases (lookup key h.heap)) [
  | inl n ↦ ground (arith, live j x)
  | inr (c, n) ↦ ground (
    arith,
    OneLive-insert h key c (record c { pongs = remove ping_id c.pongs }) n refl refl live j x,
  )
]

abbrev pub empty_hub : Hub
empty_hub = record { heap = []; conns = []; changes = [] }

steps-keeps_OneLive : (us : List Use) (h : Hub) → OneLive h → OneLive (steps h us)
unfolding steps
steps-keeps_OneLive [] h live = live
steps-keeps_OneLive (u ∷ us) h live = steps-keeps_OneLive us (step h u) (step-OneLive h u live)

-- Under any sequence of the hub's methods, from a hub with no connection: a connection that is not
-- closed is the current one of its agent, so that an agent has at most one. One that was replaced
-- is closed, and when it is taken out later the one that replaced it stays.
pub steps-OneLive : (us : List Use) → OneLive (steps empty_hub us)
unfolding lookup
steps-OneLive us = steps-keeps_OneLive us empty_hub (λ j x e d. absurd (ground arith))
