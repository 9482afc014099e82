-- ===== src/Handlers/Registry.antt =====
-- src/handlers/registry.ts and resolver.ts with src/domain/handler-manifest.ts: the handlers that a
-- task may name, and the timeouts that they allow.
use jobflow_project.Common.{
  Bool, List, Map, Option, Result, Text, [], err, false, has, if◌then◌else◌, includes, insert,
  lookup, ltb, none, ok, select, some, text, text_eq, true, values, ℕ, ◌*◌, ◌++◌, ◌∷◌,
}
use jobflow_project.Domain.{JobflowError, TaskDefinition, validation_error}

pub record HandlerManifestEntry : Type 0 where
  pub name : Text
  pub version : Text
  pub description : Text
  pub timeout_ms : ℕ
  pub retryable : Bool
  pub tags : List Text

abbrev pub Registry : Type 0
Registry = Map HandlerManifestEntry

abbrev manifest : Text → Text → Text → ℕ → Bool → List Text → HandlerManifestEntry
manifest name version description timeout_ms retryable tags = record {
  name = name;
  version = version;
  description = description;
  timeout_ms = timeout_ms;
  retryable = retryable;
  tags = tags;
}

unfoldable pub builtin_handlers : List HandlerManifestEntry
builtin_handlers =
    manifest (text "invoice.fetch") (text "2.1") (text "Pull invoice batch from ERP") 30000 true
      (text "erp" ∷ text "finance" ∷ [])
    ∷ manifest (text "invoice.normalize") (text "1.4") (text "Normalize line items") 15000 true
        (text "finance" ∷ [])
    ∷ manifest (text "invoice.post_gl") (text "1.0") (text "Post journal entries to GL") 30000 true
        (text "finance" ∷ text "erp" ∷ [])
    ∷ manifest (text "reconcile.extract") (text "2.0") (text "Extract ledger transactions") 90000
        true (text "finance" ∷ [])
    ∷ manifest (text "reconcile.match") (text "3.0") (text "Match PO to invoice lines") 60000 true
        (text "finance" ∷ [])
    ∷ manifest (text "onboard.validate") (text "1.0") (text "KYC validation gate") 20000 false
        (text "compliance" ∷ [])
    ∷ manifest (text "onboard.provision") (text "1.2") (text "Provision tenant resources") 45000
        true (text "platform" ∷ [])
    ∷ manifest (text "external.risky_notify") (text "0.9") (text "Third-party notification") 8000
        true (text "external" ∷ [])
    ∷ manifest (text "report.aggregate") (text "1.1") (text "Roll up metrics for BI export") 120000
        true (text "analytics" ∷ [])
    ∷ []

-- The constructor's loop.
unfoldable pub set_all : List HandlerManifestEntry → Registry → Registry
set_all [] r = r
set_all (h ∷ hs) r = set_all hs (insert h.name h r)

unfoldable pub new_registry : Registry
unfolding set_all builtin_handlers
new_registry = set_all builtin_handlers []

unfoldable pub register_handler : HandlerManifestEntry → Registry → Result JobflowError Registry
register_handler entry r =
    if has entry.name r
    then err (validation_error (text "handler already registered: " ++ entry.name) [])
    else ok (insert entry.name entry r)

unfoldable pub get_handler : Text → Registry → Option HandlerManifestEntry
get_handler name r = lookup name r

-- An empty tag counts as none.
unfoldable pub list_handlers : Option Text → Registry → List HandlerManifestEntry
list_handlers none r = values r
list_handlers (some tag) r =
    if text_eq tag [] then values r else select (λ h. includes h.tags tag) (values r)

unfoldable pub assert_known : Text → Registry → Result JobflowError (Unit {0})
assert_known handler r =
    if has handler r
    then ok tt
    else err (validation_error (text "unknown handler: " ++ handler) (handler ∷ []))

-- `resolveTasks` for one task: at most twice the handler's own timeout.
unfoldable pub cap_timeout : Option HandlerManifestEntry → TaskDefinition → TaskDefinition
cap_timeout none t = t
cap_timeout (some m) t =
    if ltb (m.timeout_ms * 2) t.timeout_ms then record t { timeout_ms = m.timeout_ms * 2 } else t

unfoldable pub resolve_tasks : Registry → List TaskDefinition → List TaskDefinition
unfolding cap_timeout
resolve_tasks r [] = []
resolve_tasks r (t ∷ ts) = cap_timeout (lookup t.handler r) t ∷ resolve_tasks r ts
