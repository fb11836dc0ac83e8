-- ===== src/Webhook/Serve/Redacted.antt =====
-- Values of headers, and a body, that are to be redacted leave no trace in the FlowRun.
use kubezap_operator.Base.{ℕ, String, ◌≡◌, refl, false, List, length, Bool-cases, inl, inr}
use kubezap_operator.Base.Assoc.{Assoc}
use kubezap_operator.Webhook.{Library, Request, get_header}
use kubezap_operator.Webhook.Route.{RouteEntry}
use kubezap_operator.Webhook.Redact
use kubezap_operator.Webhook.Redact.{AlikeInClear, headers-AlikeInClear}
use kubezap_operator.Webhook.Serve.{new_flow_run, stored_data, trace_annotations}

stored-AlikeInClear :
    {Keyset : Type 0} (lib : Library Keyset) (cap : ℕ) (r : Request) (entry : RouteEntry)
    (others : Assoc (List String)) (body hidden : List ℕ)
    → AlikeInClear lib.to_lower entry.redact_headers r.headers others
    → get_header lib r.headers "Content-Type" ≡ get_header lib others "Content-Type"
    → length body ≡ length hidden
    → (entry.redact_body ≡ false → body ≡ hidden)
    → stored_data lib cap r entry body
      ≡ stored_data lib cap (record r { headers = others }) entry hidden
unfolding stored_data Redact.body
stored-AlikeInClear lib cap r entry others body hidden clear type len same =
    rw (headers-AlikeInClear lib.to_lower entry.redact_headers clear) (
      rw type (
        rw len
          (elim (Bool-cases entry.redact_body) [ inl e ↦ rw e refl | inr e ↦ rw (same e) refl ])))

-- Two requests of one route that differ in values of headers that are on the built-in list or on the
-- route's, in any case of their letters, and in their bodies where these are redacted, of one length
-- then: their FlowRuns are the same. The headers Content-Type, traceparent and tracestate are also kept
-- apart from the others, in clear whether they are listed or not, and have to agree.
pub new_flow_run-AlikeInClear :
    {Keyset : Type 0} (lib : Library Keyset) (cap : ℕ) (r : Request) (entry : RouteEntry)
    (others : Assoc (List String)) (body hidden : List ℕ)
    → AlikeInClear lib.to_lower entry.redact_headers r.headers others
    → get_header lib r.headers "Content-Type" ≡ get_header lib others "Content-Type"
    → get_header lib r.headers "traceparent" ≡ get_header lib others "traceparent"
    → get_header lib r.headers "tracestate" ≡ get_header lib others "tracestate"
    → length body ≡ length hidden
    → (entry.redact_body ≡ false → body ≡ hidden)
    → new_flow_run lib cap r entry body
      ≡ new_flow_run lib cap (record r { headers = others }) entry hidden
unfolding new_flow_run
new_flow_run-AlikeInClear lib cap r entry others body hidden clear type parent state len same = λ i.
    record (new_flow_run lib cap r entry body) {
      annotations = trace_annotations (r.propagated (parent i) (state i));
      trigger_data = stored-AlikeInClear lib cap r entry others body hidden clear type len same i;
    }
