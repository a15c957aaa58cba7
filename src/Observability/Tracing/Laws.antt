-- ===== src/Observability/Tracing/Laws.antt =====
-- A span is recorded once, by the first call that ends it.
use ascended_core.Base.{String, ◌≡◌, ◌∙◌, refl, true, Option, none, some, List, [], ◌∷◌, ◌++◌, ℤ}
use ascended_core.Core.Value.{Value, Metadata}
use ascended_core.Core.Errors.{Thrown, core, blocked, js_error, other}
use ascended_core.Observability.Tracing.{
  SpanStatus, ok, error, Span, FinishedSpan, start_span, span_error_text, finish, end_span,
  record_error,
}

-- a call of a function of a span, at a time
pub data SpanCall : Type 0 where
  ends : Option SpanStatus → String → SpanCall
  fails : Thrown → String → SpanCall

module _ (ms_between : String → String → ℤ) (text_of : Value → String) where
  abbrev pub call_span : SpanCall → Span × List FinishedSpan → Span × List FinishedSpan
  call_span (ends status now) (span, spans) = end_span ms_between text_of status now span spans
  call_span (fails err now) (span, spans) = record_error ms_between text_of err now span spans

  abbrev pub call_all : List SpanCall → Span × List FinishedSpan → Span × List FinishedSpan
  call_all [] s = s
  call_all (c ∷ cs) s = call_all cs (call_span c s)

  abbrev status_of : SpanCall → SpanStatus
  status_of (ends none time) = ok
  status_of (ends (some status) time) = status
  status_of (fails err time) = error

  abbrev time_of : SpanCall → String
  time_of (ends status time) = time
  time_of (fails err time) = time

  abbrev message_of : SpanCall → Option String
  message_of (ends status time) = none
  message_of (fails (core e) time) = some e.message
  message_of (fails (blocked e call) time) = some e.message
  message_of (fails (js_error message) time) = some message
  message_of (fails (other v) time) = some (text_of v)

  -- what the first call of a span is to leave
  abbrev pub first_record : SpanCall → String → String → String → Option Metadata → FinishedSpan
  first_record c id now name attrs = record {
    span_id = id;
    name = name;
    status = status_of c;
    started_at = now;
    ended_at = time_of c;
    duration_ms = ms_between now (time_of c);
    attributes = attrs;
    error_message = message_of c;
  }

  abbrev HasEnded : Span × List FinishedSpan → Type 0
  HasEnded s = s.0.ended ≡ true

  call_ended :
      (c : SpanCall) (span : Span) (spans : List FinishedSpan)
      → span.ended ≡ true
      → (HasEnded (call_span c (span, spans))) × ((call_span c (span, spans)).1 ≡ spans)
  unfolding end_span record_error finish
  call_ended (ends none now) span spans over = rw over (refl, refl)
  call_ended (ends (some status) now) span spans over = rw over (refl, refl)
  call_ended (fails err now) span spans over = rw over (refl, refl)

  all_ended :
      (cs : List SpanCall) (span : Span) (spans : List FinishedSpan)
      → span.ended ≡ true
      → (call_all cs (span, spans)).1 ≡ spans
  all_ended [] span spans over = refl
  all_ended (c ∷ cs) span spans over =
      let (still, same) = call_ended c span spans over in
      let (span', spans') = call_span c (span, spans) in all_ended cs span' spans' still ∙ same

  call_fresh :
      (c : SpanCall) (id now name : String) (attrs : Option Metadata) (spans : List FinishedSpan)
      → let after = call_span c (start_span id now name attrs, spans) in
        HasEnded after × (after.1 ≡ spans ++ first_record c id now name attrs ∷ [])
  unfolding start_span end_span record_error finish span_error_text
  call_fresh (ends none time) id now name attrs spans = (refl, refl)
  call_fresh (ends (some status) time) id now name attrs spans = (refl, refl)
  call_fresh (fails (core e) time) id now name attrs spans = (refl, refl)
  call_fresh (fails (blocked e call) time) id now name attrs spans = (refl, refl)
  call_fresh (fails (js_error message) time) id now name attrs spans = (refl, refl)
  call_fresh (fails (other v) time) id now name attrs spans = (refl, refl)

  -- However often the functions of a span are called, it is recorded once, as the first call ends it:
  -- with the status of that call, the time of it, and the text of its error if it reports one.
  pub call_all_lem :
      (c : SpanCall) (cs : List SpanCall) (id now name : String) (attrs : Option Metadata)
      (spans : List FinishedSpan)
      → (call_all (c ∷ cs) (start_span id now name attrs, spans)).1
        ≡ spans ++ first_record c id now name attrs ∷ []
  call_all_lem c cs id now name attrs spans =
      let (over, recorded) = call_fresh c id now name attrs spans in
      let (span', spans') = call_span c (start_span id now name attrs, spans) in
      all_ended cs span' spans' over ∙ recorded
