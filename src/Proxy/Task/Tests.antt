-- ===== src/Proxy/Task/Tests.antt =====
-- The theorems about the polled requests of src/proxy.rs at concrete inputs.
use verifiable_rpc_sidecar.Crates.Samples.PlainCrypto.{plain_crypto, plain_crypto-laws}
use verifiable_rpc_sidecar.Crates.Samples.PlainHttp.{plain_http}
use verifiable_rpc_sidecar.Crates.Http.{UpstreamRequest, Response}
use verifiable_rpc_sidecar.Signing.{after_epoch}
use verifiable_rpc_sidecar.Signing.Tests.{st, st-IsConsistent}
use verifiable_rpc_sidecar.Proxy.{forward}
use verifiable_rpc_sidecar.Proxy.Tests.{client, request, net}
use verifiable_rpc_sidecar.Proxy.Task.{Task, created, finished, Wake, ready, dropping, run}
use verifiable_rpc_sidecar.Proxy.Task.Ends.{Sent, Kept, run-Kept}
use verifiable_rpc_sidecar.Proxy.Task.Progress.{four_polls_answer}
use verifiable_rpc_sidecar.Prelude.{ok, ◌≡◌, List, [], ◌∷◌}

abbrev ran : List Wake → Task × List UpstreamRequest
ran = run plain_crypto plain_http client net (after_epoch 700) st request created

-- Dropped while the upstream is awaited.
abbrev dropped_midway : List Wake
dropped_midway = ready ∷ ready ∷ dropping ∷ ready ∷ []

run-Kept_example :
    Kept plain_crypto plain_http client net
      (after_epoch 700)
      st
      request
      (ran dropped_midway).0
      (ran dropped_midway).1
run-Kept_example =
    run-Kept plain_crypto plain_http client net (after_epoch 700) st request dropped_midway

four_polls_answer_example :
    (resp : Response) × (sent : List UpstreamRequest) × (ran (ready ∷ ready ∷ ready ∷ ready ∷ [])
      ≡ (finished resp, sent))
    × (forward plain_crypto plain_http client net (after_epoch 700) request st ≡ ok resp)
    × Sent plain_crypto plain_http client net (after_epoch 700) st request sent
four_polls_answer_example =
    four_polls_answer plain_crypto plain_http client net (after_epoch 700) st request
      plain_crypto-laws st-IsConsistent
