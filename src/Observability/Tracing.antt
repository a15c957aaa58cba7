-- ===== src/Observability/Tracing.antt =====
-- packages/observability/src/tracing.ts. A span is an object that closes over the tracer's list of
-- finished spans: each call takes and gives back both. The id, the clock and the milliseconds between
-- two timestamps are arguments.
pub mod Laws
use ascended_core.Base.{
  String, Bool, true, false, Option, none, some, List, [], ◌∷◌, ◌++◌, ℤ, if◌then◌else◌,
}
use ascended_core.Core.Value.{Value, Metadata}
use ascended_core.Core.Errors.{Thrown, core, blocked, js_error, other}

pub data SpanStatus : Type 0 where
  ok error : SpanStatus

pub record FinishedSpan : Type 0 where
  pub span_id : String
  pub name : String
  pub status : SpanStatus
  pub started_at : String
  pub ended_at : String
  pub duration_ms : ℤ
  pub attributes : Option Metadata
  pub error_message : Option String

-- what the functions of a span close over
pub record Span : Type 0 where
  pub span_id : String
  pub name : String
  pub attributes : Option Metadata
  pub started_at : String
  pub ended : Bool
  pub error_message : Option String

pub start_span : String → String → String → Option Metadata → Span
start_span span_id now name attrs = record {
  span_id = span_id;
  name = name;
  attributes = attrs;
  started_at = now;
  ended = false;
  error_message = none;
}

-- `err instanceof Error ? err.message : String(err)`
pub span_error_text : (Value → String) → Thrown → String
span_error_text text_of (core e) = e.message
span_error_text text_of (blocked e call) = e.message
span_error_text text_of (js_error message) = message
span_error_text text_of (other v) = text_of v

module _ (ms_between : String → String → ℤ) (text_of : Value → String) where
  abbrev pub finished : SpanStatus → String → Span → FinishedSpan
  finished status now span = record {
    span_id = span.span_id;
    name = span.name;
    status = status;
    started_at = span.started_at;
    ended_at = now;
    duration_ms = ms_between span.started_at now;
    attributes = span.attributes;
    error_message = span.error_message;
  }

  pub finish : SpanStatus → String → Span → List FinishedSpan → Span × List FinishedSpan
  finish status now span spans =
      if span.ended
      then (span, spans)
      else (record span { ended = true }, spans ++ finished status now span ∷ [])

  -- `span.end(status)`, with "ok" for a status that is left out
  pub end_span : Option SpanStatus → String → Span → List FinishedSpan → Span × List FinishedSpan
  unfolding finish
  end_span none now span spans = finish ok now span spans
  end_span (some status) now span spans = finish status now span spans

  pub record_error : Thrown → String → Span → List FinishedSpan → Span × List FinishedSpan
  unfolding finish span_error_text
  record_error err now span spans =
      finish error now (record span { error_message = some (span_error_text text_of err) }) spans

clear_spans : List FinishedSpan → List FinishedSpan
clear_spans spans = []
