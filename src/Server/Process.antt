-- ===== src/Server/Process.antt =====
-- server/src/bin/jequi.rs: the listener, and the task that reloads the configuration. What a file of
-- the configuration gives when it is loaded (`ConfigMap::load`, see Config/Load) stands in the event
-- of its loading; a panic ends the task that loads it. Sockets and the runtime are left out.
pub mod Reload
use jequi.Prelude.{
  ℕ, Bool, true, false, List, [], ◌∷◌, ◌++◌, if◌then◌else◌, Bytes, Result, ok, err, panic, ◌>>=◌,
  unwrap_option,
}
use jequi.Config.Select.{ConfigMap}
use jequi.Server.Plugin.{Plugin, get_jequi}

-- `reloading` says whether the task that waits for signals still runs; `connections` has the accepted
-- connections with the configuration that each was given.
pub record Server (C : Type 0) : Type 0 where
  pub address : Bytes × ℕ
  pub config : C
  pub reloading : Bool
  pub connections : List (ℕ × C)

-- A connection comes in, or the signal to reload.
pub data Event (C : Type 0) : Type 0 where
  accepts : ℕ → Event C
  hangs_up : Result C → Event C

-- `main` up to its loop: the address is that of the first configuration.
unfoldable pub main :
    {M H : Type 0}
    → Result (ConfigMap (List (Plugin M H)))
    → Result (Server (ConfigMap (List (Plugin M H))))
unfolding get_jequi
main load = do
  config ← load
  conf ← unwrap_option (get_jequi config.config)
  ok (record {
    address = (conf.ip, conf.port);
    config = config;
    reloading = true;
    connections = [];
  })

module _ {C : Type 0} where
  -- A round of `listen_reload`.
  unfoldable pub listen_reload : Result C → Server C → Server C
  listen_reload (ok loaded) s = record s { config = loaded }
  listen_reload (err e) s = record s { reloading = false }
  listen_reload panic s = record s { reloading = false }

  unfoldable pub step : Event C → Server C → Server C
  unfolding listen_reload
  step (accepts n) s = record s { connections = s.connections ++ ((n, s.config) ∷ []) }
  step (hangs_up loaded) s =
      let reloaded = listen_reload loaded s in if s.reloading then reloaded else s

  unfoldable pub run : List (Event C) → Server C → Server C
  unfolding step
  run [] s = s
  run (e ∷ es) s = run es (step e s)

  -- The last configuration that could be loaded, up to the first that could not.
  abbrev pub last_loaded : C → List (Event C) → C
  last_loaded config [] = config
  last_loaded config (accepts n ∷ es) = last_loaded config es
  last_loaded config (hangs_up (ok loaded) ∷ es) = last_loaded loaded es
  last_loaded config (hangs_up (err e) ∷ es) = config
  last_loaded config (hangs_up panic ∷ es) = config
