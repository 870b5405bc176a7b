-- ===== src/Tests/Networks.antt =====
-- End-point 5, connected to server 7 under the name 1.
use distributed_systems_mit.Base.{ℕ, true, false}
use distributed_systems_mit.Network.{
  Network, Draws, make_network, set_reliable, add_server, connect, enable,
}

abbrev wired : Network
wired = enable (connect (add_server make_network 1 7) 5 1) 5 true

abbrev shaky : Network
shaky = set_reliable wired false

abbrev draws : Draws
draws = record { drop_request = 400; drop_reply = 500; delay_reply = 50 }

abbrev answer : ℕ
answer = 42
