-- ===== src/Audit/Reached.antt =====
-- protected-audit-timeline.ts: the states of a writer, and what holds in all of them.
use mathlib.Core.List.{map-append}
use chimp_maera.Common.{
  ok_injective, ℕ, ◌+◌, ◌≤◌, String, ◌≡◌, refl, sym, ap, ◌∙◌, true, ◌&&◌, some, List, [], ◌∷◌, ◌++◌,
  arith, length, length-append, length-map, All-snoc, leb, eqb→eq, map, All, ok, on_ok, on_require,
  eq_iff, subst, inl, inr,
}
use chimp_maera.Json.{Value, Fields, field_of}
use chimp_maera.Common.Maybe.{on_some, on_check}
use chimp_maera.Json.Guards.{as_text, is_text, max_safe_integer, safe_integer}
use chimp_maera.Audit.Made.{candidate_of}
use chimp_maera.Audit.{AuditEvent, AuditEnvelope, Checkpoint, Crypto, Signer, TrustPolicy, kind_of}
use chimp_maera.Audit.Guards.{event_schema, id_ok, valid_id, valid_time}
use chimp_maera.Audit.Read.{Binding, read_binding}
use chimp_maera.Audit.Envelope.{envelope_value}
use chimp_maera.Audit.Verify.{Scan, advance, start, scan_envelope, scan_all}
use chimp_maera.Audit.Writer.{
  AuditWriter, Replay, new_writer, append, snapshot, previous_digest, lookup,
}
use chimp_maera.Audit.Laws.{CryptoLaws, validate_event-allow}
use chimp_maera.Audit.Signed.{IsSigned-digest}
use chimp_maera.Audit.Appended.{extended, IsAppended, append-parts}
use chimp_maera.Audit.Silent.{Trusts}
use chimp_maera.Audit.Agrees.{Agrees, scan_envelope-appended, advance-Agrees}

-- The states that a writer reaches by successful appends.
pub data Reached (c : Crypto) (timeline tenant : String) (s : Signer) : AuditWriter → Type 0 where
  made : {w : AuditWriter} → new_writer timeline tenant s ≡ ok w → Reached c timeline tenant s w
  appended :
      {w w' : AuditWriter} {r : Replay} {e : AuditEnvelope} (v : Value) (at : ℕ)
      → Reached c timeline tenant s w
      → append c w v at ≡ ok (w', r, e)
      → Reached c timeline tenant s w'

safe_integer-le :
    (least : ℕ) (v : Value) {n : ℕ} → safe_integer least v ≡ some n → n ≤ max_safe_integer
safe_integer-le least v h = ground arith

sequence-le_of_some :
    {b d : Binding}
    → b.sequence ≤ max_safe_integer
    → some b ≡ some d
    → d.sequence ≤ max_safe_integer
sequence-le_of_some {b} {d} h same = let p : b.sequence ≡ d.sequence = cc in rw (← p) h

-- A validated event has a safe sequence number.
read_binding-sequence :
    (fs : Fields) {b : Binding} → read_binding fs ≡ some b → b.sequence ≤ max_safe_integer
unfolding read_binding
read_binding-sequence fs h =
    on_check (is_text (field_of "schemaVersion" fs) event_schema) _ h λ _ h1.
      on_some (valid_id (field_of "timelineId" fs)) _ h1 λ _ _ h2.
        on_some (valid_id (field_of "tenant" fs)) _ h2 λ _ _ h3.
          on_some (valid_id (field_of "eventId" fs)) _ h3 λ _ _ h4.
            on_some (valid_id (field_of "actorId" fs)) _ h4 λ _ _ h5.
              on_some (valid_id (field_of "operationId" fs)) _ h5 λ _ _ h6.
                on_some (valid_id (field_of "correlationId" fs)) _ h6 λ _ _ h7.
                  on_some (safe_integer 1 (field_of "sequence" fs)) _ h7 λ n safe h8.
                    on_some (as_text (field_of "eventKind" fs)) _ h8 λ t _ h9.
                      on_some (kind_of t) _ h9 λ _ _ h10.
                        on_some (valid_time (field_of "occurredAtMs" fs)) _ h10 λ occurred _ h11.
                          on_some (valid_time (field_of "observedAtMs" fs)) _ h11 λ observed _ h12.
                            on_check (leb occurred observed) _ h12 λ _ h13.
                              sequence-le_of_some (safe_integer-le 1 (field_of "sequence" fs) safe)
                                h13

module _ (c : Crypto) (trust : TrustPolicy) (checkpoint : Checkpoint) where
  scan_all-snoc :
      (index : ℕ) (s : Scan) (vs : List Value) (v : Value) {s' s'' : Scan}
      → scan_all c trust checkpoint index s vs ≡ ok s'
      → scan_envelope c trust checkpoint (index + length vs) s' v ≡ ok s''
      → scan_all c trust checkpoint index s (vs ++ v ∷ []) ≡ ok s''
  unfolding scan_all
  scan_all-snoc index s [] v {s''} h k =
      let here : scan_envelope c trust checkpoint index s v ≡ ok s'' =
        subst (λ n. scan_envelope c trust checkpoint n s v ≡ ok s'') (omega arith)
          (subst (λ t. scan_envelope c trust checkpoint (index + 0) t v ≡ ok s'')
            (sym (ok_injective h)) k) in
      rw here
  scan_all-snoc index s (u ∷ vs) v {s'} {s''} h k =
      on_ok (scan_envelope c trust checkpoint index s u) _ h λ t p h'. rw p (
        scan_all-snoc (index + 1) t vs v h'
          (subst (λ n. scan_envelope c trust checkpoint n s' v ≡ ok s'') (omega arith) k))

  -- The verifier's loop over a writer's envelopes ends in agreement with the writer.
  pub record Scanned (w : AuditWriter) : Type 0 where
    pub state : Scan
    pub run : scan_all c trust checkpoint 0 (start []) (snapshot w) ≡ ok state
    pub agrees : Agrees c w state

start-Agrees :
    {c : Crypto} {timeline tenant : String} {s : Signer}
    → Agrees c
        (record {
          timeline_id = timeline;
          tenant = tenant;
          signer = s;
          envelopes = [];
          events_by_id = [];
        })
        (start [])
unfolding lookup previous_digest
start-Agrees = record {
  clean = refl;
  facts = refl;
  prior = refl;
  ids = λ id. refl;
  head = refl;
  signed = refl;
  occurred = refl;
  observed = refl;
  operation = refl;
  correlation = refl;
}

-- What holds in every reached state.
pub record IsConsistent (c : Crypto) (timeline tenant : String) (s : Signer) (w : AuditWriter)
    : Type 0 where
  pub signer : w.signer ≡ s
  pub timeline_id : w.timeline_id ≡ timeline
  pub tenant_id : w.tenant ≡ tenant
  pub timeline_ok : id_ok timeline ≡ true
  pub tenant_ok : id_ok tenant ≡ true
  pub scoped :
      All
        (λ (e : AuditEnvelope). (e.event.timeline_id ≡ timeline) × (e.event.tenant ≡ tenant))
        w.envelopes
  pub small : length w.envelopes ≤ max_safe_integer
  pub scanned :
      (trust : TrustPolicy) (checkpoint : Checkpoint)
      → Trusts trust s
      → checkpoint.timeline_id ≡ timeline
      → checkpoint.tenant ≡ tenant
      → Scanned c trust checkpoint w

module _ (c : Crypto) (timeline tenant : String) (s : Signer) (laws : CryptoLaws c s) where
  new_writer-IsConsistent :
      {w : AuditWriter} → new_writer timeline tenant s ≡ ok w → IsConsistent c timeline tenant s w
  unfolding new_writer scan_all snapshot
  new_writer-IsConsistent h = on_require (id_ok timeline && id_ok tenant) _ _ h λ ids h1.
      subst (IsConsistent c timeline tenant s) (ok_injective h1) (record {
        signer = refl;
        timeline_id = refl;
        tenant_id = refl;
        timeline_ok = ground arith;
        tenant_ok = ground arith;
        scoped = tt;
        small = omega arith;
        scanned = λ trust checkpoint trusts p q. record {
          state = start [];
          run = refl;
          agrees = start-Agrees;
        };
      })

  extended-Scanned :
      (w : AuditWriter) (l : CryptoLaws c w.signer) (trust : TrustPolicy) (checkpoint : Checkpoint)
      {v : Value} {at : ℕ} {w' : AuditWriter} (e : AuditEnvelope)
      → IsConsistent c timeline tenant s w
      → IsAppended c w l v at w' e
      → Trusts trust s
      → checkpoint.timeline_id ≡ timeline
      → checkpoint.tenant ≡ tenant
      → Scanned c trust checkpoint (extended w e)
  unfolding snapshot
  extended-Scanned w l trust checkpoint e k a trusts p q =
      let before = k.scanned trust checkpoint trusts p q in
      let (d, h) = IsSigned-digest c w.signer l e a.made.signed in
      let trusted = subst (Trusts trust) (sym k.signer) trusts in
      let next =
        scan_envelope-appended c trust checkpoint w l trusted (p ∙ sym k.timeline_id)
          (q ∙ sym k.tenant_id) before.state e before.agrees a h in
      record {
        state = advance before.state [] (candidate_of e) e.event e.event_digest d;
        run = rw (map-append envelope_value w.envelopes (e ∷ [])) (
            scan_all-snoc c trust checkpoint 0 (start []) (map envelope_value w.envelopes)
              (envelope_value e) before.run
              (subst
                (λ n.
                  scan_envelope c trust checkpoint n before.state (envelope_value e)
                  ≡ ok (advance before.state [] (candidate_of e) e.event e.event_digest d))
                (omega (arith, length-map envelope_value w.envelopes)) next));
        agrees =
            advance-Agrees c trust checkpoint w l trusted (p ∙ sym k.timeline_id)
              (q ∙ sym k.tenant_id) before.state e before.agrees a h;
      }

  extended-IsConsistent :
      (w : AuditWriter) (l : CryptoLaws c w.signer) {v : Value} {at : ℕ} {w' : AuditWriter}
      (e : AuditEnvelope)
      → IsConsistent c timeline tenant s w
      → IsAppended c w l v at w' e
      → IsConsistent c timeline tenant s (extended w e)
  extended-IsConsistent w l {v} e k a = record {
    signer = k.signer;
    timeline_id = k.timeline_id;
    tenant_id = k.tenant_id;
    timeline_ok = k.timeline_ok;
    tenant_ok = k.tenant_ok;
    scoped =
        All-snoc
          (λ (x : AuditEnvelope). (x.event.timeline_id ≡ timeline) × (x.event.tenant ≡ tenant))
          w.envelopes e k.scoped
          (
            (eq_iff _ _).0 a.admitted.timeline_id ∙ k.timeline_id,
            (eq_iff _ _).0 a.admitted.tenant ∙ k.tenant_id,
          );
    small =
        let accepted = validate_event-allow c v a.made.valid in
        let safe = read_binding-sequence accepted.fields accepted.bound in
        let sequence = ap (λ (x : AuditEvent). x.sequence) accepted.event in
        let next = eqb→eq _ _ a.admitted.sequence in
        omega (arith, length-append {0} w.envelopes (e ∷ []));
    scanned = λ trust checkpoint trusts p q. extended-Scanned w l trust checkpoint e k a trusts p q;
  }

  -- Every state that a writer reaches by successful appends is consistent: the signer, timeline
  -- and tenant are those it was made with, every envelope has that scope, sequence numbers are
  -- safe, and the verifier's loop passes over the envelopes without an issue, under a policy that
  -- trusts the signer; node:crypto is assumed to verify what it signs.
  pub Reached-IsConsistent :
      {w : AuditWriter} → Reached c timeline tenant s w → IsConsistent c timeline tenant s w
  Reached-IsConsistent (made h) = new_writer-IsConsistent h
  Reached-IsConsistent (appended {w} {w'} {r} {e} v at before h) =
      let k = Reached-IsConsistent before in
      let l = subst (CryptoLaws c) (sym k.signer) laws in
      elim (append-parts c w l v at h) [
        | inl replayed ↦ subst (IsConsistent c timeline tenant s) (sym replayed.state) k
        | inr (a, _) ↦
            subst (IsConsistent c timeline tenant s) (sym a.state) (extended-IsConsistent w l e k a)
      ]
