-- ===== src/Flow.antt =====
-- internal/flow/flow.go and sink.go: the record of one exchange, its ids and the fan-out to sinks.
pub mod Async
pub mod Decode
pub mod Caps
pub mod Console
pub mod Fields
pub use Caps.{default_body_cap}
use proxysim.Prelude.{ℕ, ◌+◌, ◌%◌, ◌^◌, Bool, false, List, [], ◌∷◌, ◌++◌, Text}
use proxysim.Http.{Header}

pub record Flow : Type 0 where
  pub id : ℕ
  pub started : ℕ
  pub duration : ℕ
  pub scheme : Text
  pub method : Text
  pub host : Text
  pub path : Text
  pub request_headers : Header
  pub request_body : Text
  pub request_truncated : Bool
  pub status_code : ℕ
  pub response_headers : Header
  pub response_body : Text
  pub response_truncated : Bool
  pub intercepted : Bool
  pub error : Text

-- The counter `lastID` is a uint64: the new value is also the result.
unfoldable pub next_id : ℕ → ℕ
next_id last_id = (last_id + 1) % 2 ^ 64

-- A sink is the action of `Emit` on its state; a `MultiSink` runs its members in order.
module _ {S : Type 0} where
  unfoldable pub multi_emit : List (Flow → S → S) → Flow → S → S
  multi_emit [] f s = s
  multi_emit (emit ∷ sinks) f s = multi_emit sinks f (emit f s)
