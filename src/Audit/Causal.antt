-- ===== src/Audit/Causal.antt =====
-- protected-audit-timeline.ts: issue lists, and the causal references of an event.
use chimp_maera.Common.{
  String, Bool, true, false, not, Option, none, some, List, [], ◌∷◌, ◌++◌, ◌==◌, map, includes,
  is_some, if◌then◌else◌,
}
use chimp_maera.Audit.{
  EventKind, ReferenceKey, AuditEvent, kind_eq, reference_keys, kind_by_reference,
  required_references,
}

-- `pushUnique`
abbrev pub push_unique : List String → String → List String
push_unique issues issue = if includes issues issue then issues else issues ++ issue ∷ []

-- `if (test) pushUnique(issues, issue)`, one after the other
unfoldable pub report : List (Bool × String) → List String → List String
report [] issues = issues
report ((test, issue) ∷ rest) issues =
    report rest (if test then push_unique issues issue else issues)

-- `for (const issue of found) pushUnique(issues, issue)`
unfoldable pub push_all : List String → List String → List String
push_all [] issues = issues
push_all (i ∷ is) issues = push_all is (push_unique issues i)

-- `a === b` on texts of which one may be null or undefined
abbrev pub same_text : Option String → Option String → Bool
same_text none none = true
same_text (some s) (some t) = s == t
same_text _ _ = false

-- a Map from kinds to digests
abbrev pub PriorByKind : Type 0
PriorByKind = EventKind → Option String

abbrev pub no_prior : PriorByKind
no_prior k = none

-- `priorByKind.set(kind, digest)`
unfoldable pub set_prior : EventKind → String → PriorByKind → PriorByKind
set_prior kind d prior k = if kind_eq kind k then some d else prior k

abbrev pub link_missing : AuditEvent → ReferenceKey → Bool × String
link_missing e k = (not (is_some (e.references k)), "AUDIT_CAUSAL_LINK_MISSING_DENIED")

abbrev pub is_mismatch : PriorByKind → ReferenceKey → Option String → Bool
is_mismatch prior k none = false
is_mismatch prior k (some r) = not (same_text (prior (kind_by_reference k)) (some r))

abbrev pub link_mismatch : AuditEvent → PriorByKind → ReferenceKey → Bool × String
link_mismatch e prior k =
    (is_mismatch prior k (e.references k), "AUDIT_CAUSAL_REFERENCE_MISMATCH_DENIED")

-- `causalIssues`
unfoldable pub causal_issues : AuditEvent → PriorByKind → List String
unfolding required_references report
causal_issues e prior =
    report (map (link_mismatch e prior) reference_keys)
      (report (map (link_missing e) (required_references e.kind)) [])
