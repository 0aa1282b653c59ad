-- ===== src/Site/Opening.antt =====
-- The connections that the opening of a session leaves open (`ServeWS` of
-- dashboard/internal/hub/session.go), and for which agents.
use uptime_mesh.Prelude.{
  ℕ, ◌≡◌, Bool, true, false, not, List, Option, String, arith, lookup, Option-cases, inl, inr,
}
use uptime_mesh.Store.Agents.{Agent, AgentStatus}
use uptime_mesh.Store.Agents.Identity.{DistinctIds}
use uptime_mesh.Scheduler.Flight.{Envelope}
use uptime_mesh.Hub.{Hub, register, unregister, send_conn, send_to_agent}
use uptime_mesh.Hub.Registry.{
  OneLive, registers, unregisters, sends, step-OneLive, OneLive-insert, send_conn-kept, step,
}
use uptime_mesh.Hub.Live.{
  AllLive, AllLive-insert, register-AllLive, unregister-AllLive, send_to_agent-AllLive,
}
use uptime_mesh.Hub.Session.{Hello, AuthWorld, authenticate, pending_credential}
use uptime_mesh.Site.{
  Site, Frames, push_credential, new_conn, send_on, deliver_pending_credential, open_session, serve,
}
use uptime_mesh.Site.Admission.{status_at, Moves, stays, enters, returns, authenticate-Keeps}
use uptime_mesh.Site.Answered.{is_barred, authenticate-Fits}

abbrev pub is_welcome : List Agent → String → Bool
is_welcome rows id = not (is_barred (status_at rows id))

-- At most one open connection for each agent, and none of an agent that is revoked or deleted.
abbrev pub Sound : List Agent → Hub → Type 0
Sound rows hub = OneLive hub × AllLive (is_welcome rows) hub

-- Rows in which more agents are welcome.
unfoldable pub Wider : List Agent → List Agent → Type 0
Wider rows rows' = (j : String) → is_welcome rows j ≡ true → is_welcome rows' j ≡ true

pub Sound-Wider :
    (rows rows' : List Agent) (hub : Hub) → Wider rows rows' → Sound rows hub → Sound rows' hub
unfolding Wider
Sound-Wider rows rows' hub m (one, live) = (one, λ j x e d. m x.agent_id (live j x e d))

send_on-Sound :
    (rows : List Agent) (hub : Hub) (key : String) (env : Envelope)
    → Sound rows hub
    → Sound rows (send_on hub key env).0
unfolding send_on
send_on-Sound rows hub key env (one, live) = elim (Option-cases (lookup key hub.heap)) [
  | inl n ↦ (λ j x e d. ground (arith, one j x), λ j x e d. ground (arith, live j x))
  | inr (c, n) ↦
      let k = send_conn-kept c env in
      (
        λ j x e d. ground (arith, OneLive-insert hub key c (send_conn c env).0 n k.0 k.1 one j x),
        λ j x e d. ground (
          arith,
          AllLive-insert (is_welcome rows) hub key c (send_conn c env).0 n k.0 k.1 live j x,
        ),
      )
]

pub push_credential-Sound :
    (fr : Frames) (rows : List Agent) (hub : Hub) (id credential : String)
    → Sound rows hub
    → Sound rows (push_credential fr hub id credential)
unfolding push_credential step
push_credential-Sound fr rows hub id credential (one, live) =
    elim (Option-cases (fr.credential id credential)) [
      | inl n ↦ (λ j x e d. ground (arith, one j x), λ j x e d. ground (arith, live j x))
      | inr (env, n) ↦
          let one' : OneLive (send_to_agent hub id env).0 = step-OneLive hub (sends id env) one in
          let live' = send_to_agent-AllLive (is_welcome rows) hub id env live in
          (
            λ j x e d. ground (arith, one j x, one' j x),
            λ j x e d. ground (arith, live j x, live' j x),
          )
    ]

deliver_pending_credential-Sound :
    (fr : Frames) (fails : Bool) (agents rows : List Agent) (hub : Hub) (key id : String)
    → Sound rows hub
    → Sound rows (deliver_pending_credential fr fails agents hub key id)
unfolding deliver_pending_credential
deliver_pending_credential-Sound fr fails agents rows hub key id sound =
    elim (Option-cases (pending_credential fails agents id)) [
      | inl n ↦ rw (n, deliver_pending_credential) sound
      | inr (c, n) ↦ elim (Option-cases (fr.credential id c)) [
        | inl m ↦ rw (n, deliver_pending_credential) (rw m sound)
        | inr (env, m) ↦
            rw (n, deliver_pending_credential) (rw m (send_on-Sound rows hub key env sound))
      ]
    ]

open_session-Sound :
    (fr : Frames) (fails : Bool) (rows : List Agent) (hub : Hub) (key : String) (a : Agent)
    (st : AgentStatus) (now : ℕ)
    → is_welcome rows a.id ≡ true
    → Sound rows hub
    → Sound rows (open_session fr fails rows hub key a st now)
unfolding open_session step
open_session-Sound fr fails rows hub key a st now w (one, live) =
    let c = new_conn a now in
    let env = fr.hello_ack st a.id in
    let registered : Sound rows (register hub key c) = (
      step-OneLive hub (registers key c) one,
      register-AllLive (is_welcome rows) hub key c w live,
    ) in
    let sent_ack = send_on-Sound rows (register hub key c) key env registered in
    let ended : Sound rows (unregister (send_on (register hub key c) key env).0 key) = (
      step-OneLive (send_on (register hub key c) key env).0 (unregisters key) sent_ack.0,
      unregister-AllLive (is_welcome rows) (send_on (register hub key c) key env).0 key sent_ack.1,
    ) in
    let delivered =
      deliver_pending_credential-Sound fr fails rows rows (send_on (register hub key c) key env).0
        key a.id sent_ack in
    (
      λ j x e d. ground (arith, sent_ack.0 j x, ended.0 j x, delivered.0 j x),
      λ j x e d. ground (arith, sent_ack.1 j x, ended.1 j x, delivered.1 j x),
    )

Moves-Wider : (x y : Option AgentStatus) → Moves x y → is_barred x ≡ false → is_barred y ≡ false
Moves-Wider x y (stays e) b = ground (arith, e)
Moves-Wider x y (enters e f) b = ground (arith, f)
Moves-Wider x y (returns e f) b = ground (arith, f)

pub serve-Sound :
    (fr : Frames) (w : AuthWorld) (s : Site) (hello : Hello) (source_ip key : String)
    → DistinctIds s.agents
    → Sound s.agents s.hub
    → let t = serve fr w s hello source_ip key in Sound t.agents t.hub
unfolding serve Wider
serve-Sound fr w s hello source_ip key d sound =
    let t = authenticate fr.hash_secret w s.agents hello source_ip in
    let keeps = authenticate-Keeps fr.hash_secret w s.agents hello source_ip d in
    let wider : Wider s.agents t.0 = λ j h. ground (arith, Moves-Wider _ _ (keeps.1 j)) in
    let next = Sound-Wider s.agents t.0 s.hub wider sound in
    elim (Option-cases t.1) [
      | inl n ↦ (λ j x e f. ground (arith, next.0 j x), λ j x e f. ground (arith, next.1 j x))
      | inr ((a, st), n) ↦
          let fits = authenticate-Fits fr.hash_secret w s.agents hello source_ip d a st n in
          let opened =
            open_session-Sound fr w.deliver_fails t.0 s.hub key a st w.now (ground (arith, fits.0))
              next in
          (λ j x e f. ground (arith, opened.0 j x), λ j x e f. ground (arith, opened.1 j x))
    ]
