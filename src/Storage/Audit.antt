-- ===== src/Storage/Audit.antt =====
-- storage/sqlite_backend.py, the table `audit_log`, whose id is given by AUTOINCREMENT, and
-- core/audit.py, the writer in front of it. A detail that is no text is serialised by `json.dumps`
-- before, which is left out here; so is the search by parts of texts, a parameter of the filter.
use Prim.Native.String.{String as Text}
use astrbot_plugin_webchat_g.Prelude.{
  ℕ, zero, suc, ◌+◌, String, Bool, true, Option, none, some, List, [], ◌∷◌, ◌++◌, ◌&&◌, ◌||◌, ◌==◌,
  if◌then◌else◌, number_key, ltb, leb, select,
}
use astrbot_plugin_webchat_g.Storage.Rows.{AuditRow}
use astrbot_plugin_webchat_g.Storage.Sql.{
  delete_where, count_where, limit_rows, offset_rows, order_by, clamp,
}

pub record AuditTable : Type 0 where
  pub rows : List AuditRow
  pub sequence : ℕ

-- `text[:n]`
unfoldable pub prefix_of : ℕ → String → String
prefix_of zero s = ""
prefix_of (suc n) Text.[] = ""
prefix_of (suc n) (Text.◌∷◌ c s) = Text.◌∷◌ c (prefix_of n s)

unfoldable pub write_audit :
    ℕ → Option String → Option String → String → String → AuditTable → AuditTable
unfolding prefix_of
write_audit ts name ip event detail t =
    let row : AuditRow = record {
      id = t.sequence + 1;
      ts = ts;
      name = name;
      ip = ip;
      event = event;
      detail = prefix_of 1024 detail;
    } in
    record { rows = t.rows ++ (row ∷ []); sequence = t.sequence + 1 }

-- `AuditLogger.write`: an exception of the storage is logged and swallowed.
unfoldable pub write :
    Bool → ℕ → Option String → Option String → String → String → AuditTable → AuditTable
unfolding write_audit
write raises ts name ip event detail t =
    let written = write_audit ts name ip event (prefix_of 1024 detail) t in
    if raises then t else written

-- `ORDER BY ts DESC, id DESC`
abbrev pub is_later : AuditRow → AuditRow → Bool
is_later r s = ltb s.ts r.ts || r.ts == s.ts && ltb s.id r.id

unfoldable pub get_recent_audit : ℕ → AuditTable → List AuditRow
get_recent_audit limit t = limit_rows (clamp 1 500 limit) (order_by is_later t.rows)

-- `column LIKE '%text%'` for each of three columns, with the empty text for no condition.
pub record Filter : Type 0 where
  pub has_event : String → Bool
  pub has_name : Option String → Bool
  pub has_ip : Option String → Bool
  pub ts_from : Option ℕ
  pub ts_to : Option ℕ

abbrev pub passes : Filter → AuditRow → Bool
passes f row =
    f.has_event row.event
    && f.has_name row.name
    && f.has_ip row.ip
    && elim f.ts_from [ none ↦ true | some low ↦ leb low row.ts ]
    && elim f.ts_to [ none ↦ true | some high ↦ leb row.ts high ]

-- A page, and the number of all rows that pass.
unfoldable pub list_audit : ℕ → ℕ → Filter → AuditTable → List AuditRow × ℕ
list_audit limit offset f t = (
  limit_rows (clamp 1 1000 limit)
      (offset_rows offset (order_by is_later (select (passes f) t.rows))),
  count_where (passes f) t.rows,
)

unfoldable pub prune_audit : ℕ → AuditTable → ℕ × AuditTable
prune_audit before t = (
  count_where (λ (r : AuditRow). ltb r.ts before) t.rows,
  record t { rows = delete_where (λ (r : AuditRow). ltb r.ts before) t.rows },
)
