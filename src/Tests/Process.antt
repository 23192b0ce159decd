-- ===== src/Tests/Process.antt =====
-- Connections of a server whose configuration is reloaded, and over TLS.
use jequi.Prelude.{ℕ, ◌≡◌, refl, inl, true, none, some, List, [], ◌∷◌, ◌++◌, codes, ok, panic}
use jequi.Headers.{Header}
use jequi.Maps
use jequi.Maps.{bytes_Eq}
use jequi.Text.{bytes_eq}
use jequi.Text.Split.{before}
use jequi.Config.Select.{ConfigMap, host_scope}
use jequi.Server.Plugin
use jequi.Server.Plugin.{Plugin, own, get_jequi}
use jequi.Server.Negotiate.{http2, offer, select_alpn}
use jequi.Server.Tls.{accept, accept-offer, select_alpn_inside}
use jequi.Server.Process.{Server, accepts, hangs_up, main, run}
use jequi.Server.Process.Reload.{main-run, run_after_failure}

abbrev M : Type 0
M = List Header

abbrev Map : Type 0
Map = ConfigMap (List (Plugin M ℕ))

abbrev own_plugin : Plugin.Config → List (Plugin M ℕ)
own_plugin conf = record { config = own conf; request_handler = none } ∷ []

abbrev tls_conf : Plugin.Config
tls_conf = record Plugin.default { tls_active = true }

abbrev host_conf : Plugin.Config
host_conf = record Plugin.default {
  http2 = true;
  ssl_key = some 4;
  ssl_certificate = some (5 ∷ (6 ∷ (7 ∷ [])));
}

abbrev map_of : Plugin.Config → Map
map_of conf = record {
  host = some ((codes "a", record { path = none; config = own_plugin host_conf }) ∷ []);
  path = none;
  config = own_plugin conf;
}

accept-offer_example :
    accept
      (λ k. true)
      (λ c. true)
      (map_of tls_conf)
      (some (codes "a"))
      (some (offer (codes "spdy" ∷ [] ++ (codes "h2" ∷ []))))
    ≡ ok (
      http2,
      some (record { private_key = 4; certificate = 5; extra_chain = 6 ∷ (7 ∷ []); http2 = true }),
    )
unfolding get_jequi host_scope before Maps.get bytes_eq
accept-offer_example =
    accept-offer (λ k. true) (λ c. true) (map_of tls_conf) (some (codes "a")) tls_conf host_conf 4 5
      (6 ∷ (7 ∷ [])) (codes "spdy" ∷ []) [] refl refl refl refl refl refl (refl, (refl, (refl, tt)))

select_alpn_inside_example :
    select_alpn true (offer ((codes "x" ++ ((2 ∷ codes "h2") ++ codes "y")) ∷ []))
    ≡ some (codes "h2")
select_alpn_inside_example = select_alpn_inside (codes "x") (codes "y")

abbrev first : Map
first = map_of Plugin.default

abbrev second : Map
second = map_of tls_conf

main-run_example :
    (s : Server Map) × (main (ok first) ≡ ok s)
    × (older newer : List (ℕ × Map)) × ((run
          (accepts 1 ∷ (hangs_up (ok second) ∷ (hangs_up panic ∷ (hangs_up (ok first) ∷ [])))
            ++ (accepts 2 ∷ (hangs_up (ok first) ∷ [])))
          s).connections
        ≡ older ++ ((2, second) ∷ newer))
    × ((run
          (accepts 1 ∷ (hangs_up (ok second) ∷ (hangs_up panic ∷ (hangs_up (ok first) ∷ [])))
            ++ (accepts 2 ∷ (hangs_up (ok first) ∷ [])))
          s).address
        ≡ (codes "127.0.0.1", 7878))
unfolding get_jequi
main-run_example =
    main-run first Plugin.default
      (accepts 1 ∷ (hangs_up (ok second) ∷ (hangs_up panic ∷ (hangs_up (ok first) ∷ []))))
      (hangs_up (ok first) ∷ []) 2 refl

abbrev running : Server Map
running = record {
  address = (codes "127.0.0.1", 7878);
  config = first;
  reloading = true;
  connections = [];
}

run_after_failure_example :
    (run (hangs_up panic ∷ (hangs_up (ok second) ∷ [])) running).config ≡ first
run_after_failure_example = run_after_failure running (hangs_up (ok second) ∷ []) panic (inl refl)
