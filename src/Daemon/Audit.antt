-- ===== src/Daemon/Audit.antt =====
-- crates/mandraked/src/audit.rs: `AppState::record`. The transaction of its two inserts is one step
-- of the database.
use mandrake.Common.{suc, Bool, true, false, Option, none, some, if◌then◌else◌}
use mandrake.Common.Table.{insert_row}
use mandrake.Common.Text.{Text}
use mandrake.Core.Time.{Timestamp}
use mandrake.Core.Role.{Actor}
use mandrake.Daemon.Store.{ObjectRef, AuditResult, UserSummary, AuditRow, Event}
use mandrake.Daemon.Handler.{Handler, ok}

pub record Record : Type 0 where
  pub action : Text
  pub object : ObjectRef
  pub before : Option UserSummary
  pub after : Option UserSummary
  pub result : AuditResult
  pub detail : Option Text

pub record Context : Type 0 where
  pub source : Option Text
  pub request_id : Option Text

-- `Record::ok`
abbrev pub done : Text → ObjectRef → Record
done action object = record {
  action = action;
  object = object;
  before = none;
  after = none;
  result = AuditResult.ok;
  detail = none;
}

abbrev pub denied : Text → ObjectRef → Text → Record
denied action object why = record (done action object) {
  result = AuditResult.denied;
  detail = some why;
}

abbrev is_done : AuditResult → Bool
is_done AuditResult.ok = true
is_done _ = false

-- The audit row is inserted always, the event row and the event only where the action was done.
unfoldable pub record_action : Timestamp → Actor → Context → Record → Handler (Unit {0})
record_action at actor ctx rec s =
    let row : AuditRow = record {
      at = at;
      actor = actor;
      action = rec.action;
      object = rec.object;
      before = rec.before;
      after = rec.after;
      result = rec.result;
      detail = rec.detail;
      request_id = ctx.request_id;
      source = ctx.source;
    } in
    let event : Event = record {
      id = suc s.db.last_event;
      at = at;
      kind = rec.action;
      object = rec.object;
      actor = actor;
      payload = rec.after;
    } in
    let audited = record s.db { audit = insert_row row s.db.audit } in
    (
      ok tt,
      (if is_done rec.result
          then record s {
            db = record audited {
              events = insert_row event audited.events;
              last_event = suc audited.last_event;
            };
            published = insert_row event s.published;
          }
          else record s { db = audited }),
    )
