-- ===== src/Network.antt =====
-- The simulated network (src/labrpc/labrpc.go): its control state, and what becomes of a call. Names
-- of end-points and servers are numbers, and so is the identity of a server: one that is added again
-- under its name is another server. `none` is nil. Random draws are arguments.
pub mod Killed
use distributed_systems_mit.Base.{
  ℕ, Bool, true, false, ◌&&◌, ◌||◌, Option, none, some, ltb, ◌==◌, not, if◌then◌else◌,
}

pub record Network : Type 0 where
  pub reliable : Bool
  pub long_delays : Bool
  pub long_reordering : Bool
  pub ends : ℕ → Bool
  pub enabled : ℕ → Bool
  pub servers : ℕ → Option ℕ
  pub connections : ℕ → Option ℕ

-- A write to a map.
abbrev pub update {ℓ} : {A : Type ℓ} → (ℕ → A) → ℕ → A → ℕ → A
update f key v other = if other == key then v else f other

unfoldable pub make_network : Network
make_network = record {
  reliable = true;
  long_delays = false;
  long_reordering = false;
  ends = λ e. false;
  enabled = λ e. false;
  servers = λ s. none;
  connections = λ e. none;
}

unfoldable pub set_reliable : Network → Bool → Network
set_reliable rn on = record rn { reliable = on }

unfoldable pub set_long_reordering : Network → Bool → Network
set_long_reordering rn on = record rn { long_reordering = on }

unfoldable pub set_long_delays : Network → Bool → Network
set_long_delays rn on = record rn { long_delays = on }

-- `none` is `log.Fatalf`.
unfoldable pub make_end : Network → ℕ → Option Network
make_end rn endname =
    if rn.ends endname
    then none
    else some (record rn {
      ends = update rn.ends endname true;
      enabled = update rn.enabled endname false;
      connections = update rn.connections endname none;
    })

unfoldable pub delete_end : Network → ℕ → Option Network
delete_end rn endname =
    if not (rn.ends endname)
    then none
    else some (record rn {
      ends = update rn.ends endname false;
      enabled = update rn.enabled endname false;
      connections = update rn.connections endname none;
    })

unfoldable pub add_server : Network → ℕ → ℕ → Network
add_server rn servername server = record rn { servers = update rn.servers servername (some server) }

unfoldable pub delete_server : Network → ℕ → Network
delete_server rn servername = record rn { servers = update rn.servers servername none }

unfoldable pub connect : Network → ℕ → ℕ → Network
connect rn endname servername = record rn {
  connections = update rn.connections endname (some servername);
}

unfoldable pub enable : Network → ℕ → Bool → Network
enable rn endname on = record rn { enabled = update rn.enabled endname on }

abbrev pub server_at : Network → Option ℕ → Option (ℕ × ℕ)
server_at rn none = none
server_at rn (some servername) = elim (rn.servers servername) [
  | none ↦ none
  | some server ↦ some (servername, server)
]

-- Where a call on an end-point goes: the server's name and the server, if the end-point is enabled
-- and connected to one.
unfoldable pub read_endname_info : Network → ℕ → Option (ℕ × ℕ)
read_endname_info rn endname =
    if rn.enabled endname then server_at rn (rn.connections endname) else none

abbrev pub is_server : Option ℕ → ℕ → Bool
is_server none server = false
is_server (some other) server = other == server

unfoldable pub is_server_dead : Network → ℕ → ℕ → ℕ → Bool
is_server_dead rn endname servername server =
    not (rn.enabled endname) || not (is_server (rn.servers servername) server)

-- The draws of `rand`, of a thousand or of nine hundred.
pub record Draws : Type 0 where
  pub drop_request : ℕ
  pub drop_reply : ℕ
  pub delay_reply : ℕ

pub data Fate (R : Type 0) : Type 0 where
  unreachable request_dropped server_killed reply_dropped : Fate R
  reply_delayed reply_sent : R → Fate R

module _ {R : Type 0} where
  -- The reply's way back. `start` is the network as it was read when the request came, and `rn` as it
  -- is at the test that follows the handler. A delayed reply is sent later, without another test. `replied` tells whether the handler's reply came before the server was seen dead.
  unfoldable pub answer_req : Network → Network → ℕ → Draws → Bool → R → ℕ × ℕ → Fate R
  unfolding is_server_dead
  answer_req start rn endname d replied r (servername, server) =
      if not replied || is_server_dead rn endname servername server
      then server_killed
      else if not start.reliable && ltb d.drop_reply 100
      then reply_dropped
      else if start.long_reordering && ltb d.delay_reply 600
      then reply_delayed r
      else reply_sent r

  unfoldable pub process_req : Network → Network → ℕ → Draws → Bool → R → Fate R
  unfolding answer_req read_endname_info
  process_req start rn endname d replied r = elim (read_endname_info start endname) [
    | none ↦ unreachable
    | some target ↦
        if not start.reliable && ltb d.drop_request 100
        then request_dropped
        else answer_req start rn endname d replied r target
  ]

  -- What the caller hears; a call that failed is `none`.
  abbrev pub heard : Fate R → Option R
  heard (reply_sent r) = some r
  heard (reply_delayed r) = some r
  heard _ = none
