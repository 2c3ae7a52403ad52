-- ===== src/Registry/Entry.antt =====
-- src/server/server.py: the server that runs a registry server.
use blockchain_messaging_pro.Common.{
  ℕ, ◌≡◌, refl, sym, ap, ◌∙◌, Bool, true, false, [], ◌++◌, Str, Result, ok,
}
use blockchain_messaging_pro.Common.Dict
use blockchain_messaging_pro.Crypto.{Wallet}
use blockchain_messaging_pro.Registry.{empty_registry}
use blockchain_messaging_pro.Registry.Server.{RegistryServer}
use blockchain_messaging_pro.Registry.Server

pub record BmpServer : Type 0 where
  pub host : Str
  pub port : ℕ
  pub name : Str
  pub registry_server : RegistryServer
  pub running : Bool

-- `generated` is the wallet that `Wallet.generate` draws; the registry keeps a client for 300 seconds.
unfoldable pub new_server : Str → ℕ → Str → Wallet → BmpServer
new_server host port name generated = record {
  host = host;
  port = port;
  name = name;
  registry_server = record {
    wallet = generated;
    registry = empty_registry 300;
    connections = [];
    running = false;
    sent = [];
    closed = [];
  };
  running = false;
}

unfoldable pub start : BmpServer → Bool → BmpServer × Result (Unit {0})
start s serves = elim s.running [
  | true ↦ (s, ok tt)
  | false ↦
      let (r, started) = Server.start s.registry_server serves in
      (record s { running = true; registry_server = r }, started)
]

unfoldable pub stop : BmpServer → BmpServer
stop s = elim s.running [
  | false ↦ s
  | true ↦ record s { running = false; registry_server = Server.stop s.registry_server }
]

-- A server that runs and its registry server stop together, every connection is closed, and then
-- stopping once more does nothing.
stop-stop :
    (s : BmpServer)
    → s.running ≡ true
    → s.registry_server.running ≡ true
    → let r = s.registry_server in
      (stop s ≡ record s {
        running = false;
        registry_server = record r {
          running = false;
          closed = r.closed ++ Dict.values r.connections;
          connections = [];
        };
      })
      × (stop (stop s) ≡ stop s)
unfolding stop Server.stop
stop-stop s runs serves =
    let e : stop s ≡ record s { running = false; registry_server = Server.stop s.registry_server } =
      rw (stop, runs) refl in
    (
      e
          ∙ ap (λ r. record s { running = false; registry_server = r })
              (rw (Server.stop, serves) refl),
      ap stop e ∙ sym e,
    )
