-- ===== src/Server/Life/Tests.antt =====
-- The theorems about the life of src/main.rs at a concrete input: a start, a call, a signal.
use verifiable_rpc_sidecar.Crates.Samples.PlainCrypto.{plain_crypto}
use verifiable_rpc_sidecar.Crates.Samples.PlainHttp.{plain_http, plain_bhttp, plain_json}
use verifiable_rpc_sidecar.Crates.Samples.PlainAxum.{plain_axum}
use verifiable_rpc_sidecar.Confidential.Exchange.Tests.{env}
use verifiable_rpc_sidecar.Confidential.Task.{ready}
use verifiable_rpc_sidecar.Server.{shutdown_complete}
use verifiable_rpc_sidecar.Server.Tests.{agent, config}
use verifiable_rpc_sidecar.Server.Serve.Tests.{app, app_started, private_request}
use verifiable_rpc_sidecar.Server.Process.{Process, Event, arrives, wakes, idle, step, after}
use verifiable_rpc_sidecar.Server.Process.Polls.{AreOver}
use verifiable_rpc_sidecar.Server.Process.Drain.{polling}
use verifiable_rpc_sidecar.Server.Life.{
  draining, ended, started, bound, served, signalled, sigterm, Reaches, here, next, main_shuts_down,
}
use verifiable_rpc_sidecar.Prelude.{ℕ, refl, List}

abbrev stepped : Process plain_bhttp → Event → Process plain_bhttp
stepped = step plain_crypto agent plain_http plain_bhttp plain_json plain_axum app

-- A call whose body is awaited when the signal comes.
abbrev in_flight : Process plain_bhttp
in_flight = stepped (stepped (idle plain_bhttp) (arrives env private_request)) (wakes 0 ready)

signal_came :
    Reaches plain_crypto agent plain_http plain_bhttp plain_json plain_axum config
      (draining app in_flight)
signal_came =
    next
      (next
        (next (next (next here (started app_started)) bound)
          (served (arrives env private_request) refl))
        (served (wakes 0 ready) refl))
      (signalled sigterm)

main_shuts_down_example :
    (polls : List ℕ) × (let p' =
        after plain_crypto agent plain_http plain_bhttp plain_json plain_axum app in_flight
          (polling polls) in
      AreOver plain_bhttp p'
      × Reaches plain_crypto agent plain_http plain_bhttp plain_json plain_axum config
          (ended shutdown_complete p'))
main_shuts_down_example =
    main_shuts_down plain_crypto agent plain_http plain_bhttp plain_json plain_axum config
      signal_came
