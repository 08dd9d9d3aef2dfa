-- ===== src/Server/Process/Heard.antt =====
-- What one call of a process of src/server.rs meets among the events of all calls.
use verifiable_rpc_sidecar.Crates.Http.{Request}
use verifiable_rpc_sidecar.Confidential.InnerCall.{Environment}
use verifiable_rpc_sidecar.Confidential.Task.{Wake}
use verifiable_rpc_sidecar.Server.Process.{Event, arrives, wakes}
use verifiable_rpc_sidecar.Prelude.{
  if◌then◌else◌, ◌==◌, Option, none, some, ℕ, suc, List, [], ◌∷◌, ◌++◌,
}

-- What a call at a number has met: its environment, its request, and its wake-ups in order.
abbrev pub Heard : Type 0
Heard = Environment × Request × List Wake

abbrev pub heard_wake : Wake → Option Heard → Option Heard
heard_wake w none = none
heard_wake w (some (env, req, ws)) = some (env, req, ws ++ w ∷ [])

-- What the call at the number `i` meets of one event, when `n` calls have arrived.
abbrev pub hear : ℕ → ℕ → Option Heard → Event → Option Heard
hear i n met (arrives env req) = if i == n then some (env, req, []) else met
hear i n met (wakes k w) = if i == k then heard_wake w met else met

abbrev pub counted : ℕ → Event → ℕ
counted n (arrives env req) = suc n
counted n (wakes k w) = n

-- What it meets of events: the arrival that is its own, and then its own wake-ups.
abbrev pub heard : ℕ → ℕ → Option Heard → List Event → Option Heard
heard i n met [] = met
heard i n met (e ∷ es) = heard i (counted n e) (hear i n met e) es
