-- ===== src/Server/Process.antt =====
-- src/server.rs while it serves: calls that arrive, are woken and dropped in any order. The router
-- gives each call the same `AppState` and the handler of its route; a handler with a body to read
-- or an upstream is a task of src/confidential.rs or src/proxy.rs, any other is done when it is
-- polled and what it awaits, the guest agent at most, is ready.
pub mod Calls
pub mod Answers
pub mod Outputs
pub mod Journal
pub mod Heard
pub mod Ways
pub mod Schedule
pub mod Client
pub mod Polls
pub mod Drain
mod Tests
use verifiable_rpc_sidecar.Crates.Crypto.{Crypto}
use verifiable_rpc_sidecar.Crates.Dstack.{Dstack}
use verifiable_rpc_sidecar.Crates.Http.{Request, UpstreamRequest, Response, Http}
use verifiable_rpc_sidecar.Crates.Bhttp.{Bhttp}
use verifiable_rpc_sidecar.Crates.Json.{Json}
use verifiable_rpc_sidecar.Crates.Axum.{Axum}
use verifiable_rpc_sidecar.Proxy.Task as Proxy
use verifiable_rpc_sidecar.Confidential.InnerCall.{Environment}
use verifiable_rpc_sidecar.Confidential.Exchange.{confidential_method_not_allowed}
use verifiable_rpc_sidecar.Confidential.Task as Confidential
use verifiable_rpc_sidecar.Confidential.Task.{Output, sends, logs, Wake, ready, timer, drop_after}
use verifiable_rpc_sidecar.Server.{AppState, Handler, route}
use verifiable_rpc_sidecar.Server.Serve.{respond, layered}
use verifiable_rpc_sidecar.Server
use verifiable_rpc_sidecar.Prelude.{
  ◌==◌, if◌then◌else◌, Result, ok, err, panic, ℕ, suc, Option, none, some, map, List, [], ◌∷◌, ◌++◌,
}

-- Where a call is: in a task of its handler, at the one await of another handler, or at its end.
pub data Call (b : Bhttp) : Type 0 where
  private : Confidential.Task b → Call b
  passing : Proxy.Task → Call b
  pending : Handler → Call b
  dropped panicked : Call b
  answered : Response → Call b

module _ (b : Bhttp) where
  -- A call that has arrived at its handler.
  abbrev pub arrived : Handler → Call b
  arrived Handler.confidential_handler = private Confidential.created
  arrived Handler.proxy_handler = passing Proxy.created
  arrived handler = pending handler

-- A task of src/proxy.rs has no timer of its own.
abbrev pub proxy_wake : Wake → Option Proxy.Wake
proxy_wake ready = some Proxy.ready
proxy_wake timer = none
proxy_wake (drop_after ms) = some Proxy.dropping

-- What such a handler logs.
abbrev pub handler_output : Handler → List Output
handler_output Handler.confidential_method_not_allowed = logs confidential_method_not_allowed.1 ∷ []
handler_output handler = []

module _ (c : Crypto) (d : Dstack) (h : Http) (b : Bhttp) (j : Json) (a : Axum) (st : AppState)
    (env : Environment) (req : Request) where
  -- The layers on the response of a handler.
  abbrev pub finish_call : Handler → Response → Call b
  finish_call handler resp = answered (a.finish req.method (layered c d h b j a handler req resp))

  abbrev pub of_private : Confidential.Task b → Call b
  of_private Confidential.unstarted = dropped
  of_private Confidential.dropped = dropped
  of_private Confidential.panicked = panicked
  of_private (Confidential.finished resp) = finish_call Handler.confidential_handler resp
  of_private task = private task

  abbrev pub of_passing : Proxy.Task → Call b
  of_passing Proxy.dropped = dropped
  of_passing Proxy.panicked = panicked
  of_passing (Proxy.finished resp) = finish_call Handler.proxy_handler resp
  of_passing task = passing task

  abbrev pub wake_passing : Proxy.Task → Option Proxy.Wake → Call b × List Output
  wake_passing task none = (passing task, [])
  wake_passing task (some w) =
      let (task', sent) =
        Proxy.wake c h st.upstream env.net env.clock_after st.signing req task w in
      (of_passing task', map sends sent)

  abbrev pub responded : Handler → Result Response (Unit {0}) → Call b × List Output
  responded handler (ok resp) = (finish_call handler resp, handler_output handler)
  responded handler (err e) = (panicked, [])
  responded handler panic = (panicked, [])

  -- What one wake-up makes of a call, and what it does outside.
  unfoldable pub wake_call : Call b → Wake → Call b × List Output
  wake_call (private task) w =
      let (task', out) =
        Confidential.wake c h b j st.upstream st.signing st.confidential env req task w in
      (of_private task', out)
  wake_call (passing task) w = wake_passing task (proxy_wake w)
  wake_call (pending handler) ready = responded handler (respond c d h b j a handler st env req)
  wake_call (pending handler) (drop_after ms) = (dropped, [])
  wake_call call _ = (call, [])

  -- A call under its wake-ups: where it is left, and all that it did.
  unfoldable pub run_call : Call b → List Wake → Call b × List Output
  run_call call [] = (call, [])
  run_call call (w ∷ ws) = Confidential.and_then (wake_call call w) (λ call'. run_call call' ws)

-- A call of the process, with what it meets and its request.
pub record Slot (b : Bhttp) : Type 0 where
  pub env : Environment
  pub req : Request
  pub call : Call b

-- The calls by their number, the number of the next, and what all calls did, in order.
pub record Process (b : Bhttp) : Type 0 where
  pub calls : ℕ → Option (Slot b)
  pub next : ℕ
  pub journal : List (ℕ × Output)

pub data Event : Type 0 where
  arrives : Environment → Request → Event
  wakes : ℕ → Wake → Event

module _ (b : Bhttp) where
  unfoldable pub idle : Process b
  idle = record { calls = λ i. none; next = 0; journal = [] }

  abbrev pub placed : (ℕ → Option (Slot b)) → ℕ → Slot b → ℕ → Option (Slot b)
  placed calls i slot k = if k == i then some slot else calls k

module _ (c : Crypto) (d : Dstack) (h : Http) (b : Bhttp) (j : Json) (a : Axum)
    (st : AppState) where
  abbrev pub wake_slot : Process b → ℕ → Wake → Option (Slot b) → Process b
  wake_slot p i w none = p
  wake_slot p i w (some slot) =
      let (call, out) = wake_call c d h b j a st slot.env slot.req slot.call w in
      record p {
        calls = placed b p.calls i (record slot { call = call });
        journal = p.journal ++ map (λ o. (i, o)) out;
      }

  -- One event of the process.
  unfoldable pub step : Process b → Event → Process b
  step p (arrives env req) =
      let slot : Slot b = record {
        env = env;
        req = req;
        call = arrived b (route req.method req.uri.path);
      } in
      record p { calls = placed b p.calls p.next slot; next = suc p.next }
  step p (wakes i w) = wake_slot p i w (p.calls i)

  unfoldable pub after : Process b → List Event → Process b
  after p [] = p
  after p (e ∷ es) = after (step p e) es
