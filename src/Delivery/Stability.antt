-- ===== src/Delivery/Stability.antt =====
-- PreDeliveryStabilityGuard: is what the run froze still there? The ticket provider's answer and the
-- source's current revision are arguments; `digest` is the SHA-256 of the canonical JSON.
use code_fixer.Base.{
  String, Bool, true, false, not, ◌||◌, Option, none, some, ◌==◌, text_eq, if◌then◌else◌,
}

pub record LatestTicket : Type 0 where
  pub payload_json : String
  pub external_version : Option String
  pub eligible : Bool

pub record StabilityCheckResult : Type 0 where
  pub ready : Bool
  pub code : Option String
  pub summary : String
  pub ticket_external_version : Option String
  pub ticket_content_sha256 : String
  pub source_revision : Option String

abbrev pub same_version : Option String → Option String → Bool
same_version none none = true
same_version none (some b) = false
same_version (some a) none = false
same_version (some a) (some b) = a == b

-- `StabilityCheckResult(ready, code, summary, detail)`, with the detail of the latest ticket.
abbrev pub answer :
    LatestTicket → String → Bool → Option String → String → Option String → StabilityCheckResult
answer latest latest_hash ready code summary revision = record {
  ready = ready;
  code = code;
  summary = summary;
  ticket_external_version = latest.external_version;
  ticket_content_sha256 = latest_hash;
  source_revision = revision;
}

unfoldable pub check :
    (digest : String → String)
    → LatestTicket
    → (frozen_external_version : Option String)
    → (frozen_ticket_content_hash frozen_source_revision current_revision : String)
    → StabilityCheckResult
check digest latest frozen_version frozen_hash frozen_revision current_revision =
    let latest_hash = digest latest.payload_json in
    if not latest.eligible
    then answer latest latest_hash false (some "ticket_ineligible")
        "The ticket is no longer eligible for automatic repair" none
    else if not (same_version latest.external_version frozen_version)
        || not (latest_hash == frozen_hash)
    then answer latest latest_hash false (some "ticket_changed_during_run")
        "The ticket changed after this TaskRun froze its input snapshot" none
    else if not (current_revision == frozen_revision)
    then answer latest latest_hash false (some "base_changed_conflict")
        "The modification source baseline changed before delivery" (some current_revision)
    else answer latest latest_hash true none "Ticket and source baseline are stable"
        (some current_revision)
