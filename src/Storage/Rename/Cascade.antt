-- ===== src/Storage/Rename/Cascade.antt =====
-- storage/sqlite_backend.py, `rename_token`: what a name has after the rename.
use astrbot_plugin_webchat_g.Prelude.{
  ℕ, zero, suc, length, ◌≡◌, refl, sym, subst, ap, ◌∙◌, String, Bool, true, false, none, some, List,
  [], ◌∷◌, ◌&&◌, ◌==◌, if◌then◌else◌, text_key, number_key, is_some, ltb, select, map, arith,
  eq_iff, All, All-map, Bool-cases, inl, inr,
}
use astrbot_plugin_webchat_g.Dict.{get}
use astrbot_plugin_webchat_g.Usage.{Table, get_today_usage}
use astrbot_plugin_webchat_g.Storage.Rows.{
  TokenRow, SessionMetaRow, UpdateRow, FileRow, DropMessageRow,
}
use astrbot_plugin_webchat_g.Storage.Sql.{find_where, update_where, limit_rows, order_by}
use astrbot_plugin_webchat_g.Storage.Sql.Find.{find-update, find_absent}
use astrbot_plugin_webchat_g.Storage.Sql.Select.{select_none}
use astrbot_plugin_webchat_g.Storage.Tokens.{named, hashed, get_token_by_hash}
use astrbot_plugin_webchat_g.Storage.Files.{refers, is_orphan}
use astrbot_plugin_webchat_g.Storage.Drop.{
  is_listed, is_later, list_drop_messages, count_drop_file_references,
}
use astrbot_plugin_webchat_g.Storage.Rename.{
  Database, Renamed, renamed, rename_usage, cascade, rename_token, usage_day, days_meet,
  sessions_meet, numbers_meet, meets,
}

module _ {ℓ} {A : Type ℓ} (key : A → String) (set : A → A) (old new : String) where
  abbrev rename : List A → List A
  rename rows = update_where (λ r. key r == old) set rows

  -- The rows of the new name are those of the old one.
  select-rename :
      (rows : List A)
      → ((r : A) → key (set r) ≡ new)
      → All (λ r. (key r == new) ≡ false) rows
      → select (λ r. key r == new) (rename rows) ≡ map set (select (λ r. key r == old) rows)
  select-rename [] s u = refl
  select-rename (r ∷ rows) s u = elim (Bool-cases (key r == old)) [
    | inl own ↦
        let now : (key (set r) == new) ≡ true = (eq_iff (key (set r)) new).1 (s r) in
        rw (own, now, select-rename rows s u.1) refl
    | inr other ↦ rw (other, u.0) (select-rename rows s u.1)
  ]

  -- The rows of any other name stay.
  select-rename_other :
      (o : String) (rows : List A)
      → ((r : A) → key (set r) ≡ new)
      → (old == o) ≡ false
      → (new == o) ≡ false
      → select (λ r. key r == o) (rename rows) ≡ select (λ r. key r == o) rows
  select-rename_other o [] s f g = refl
  select-rename_other o (r ∷ rows) s f g = elim (Bool-cases (key r == old)) [
    | inl own ↦
        let out : (key (set r) == o) ≡ false = rw (s r) g in
        let was : (key r == o) ≡ false = rw ((eq_iff (key r) old).0 own) f in
        rw (own, out, was) (select-rename_other o rows s f g)
    | inr other ↦ rw (other, select-rename_other o rows s f g) refl
  ]

usage-rename :
    (old new : String) (t : Table) (day : ℕ)
    → All (λ r. (r.0.0 == new) ≡ false) t
    → get_today_usage new day (rename_usage old new t) ≡ get_today_usage old day t
unfolding get_today_usage get
usage-rename old new [] day u = refl
usage-rename old new (((name, d), count) ∷ t) day u =
    ground
      (arith, u.0, eq_iff name old, eq_iff name new, eq_iff new new, usage-rename old new t day u.1)

-- No row of the tables has the name.
pub record IsUnused (name : String) (d : Database) : Type 0 where
  pub token_free : find_where (λ (r : TokenRow). r.name == name) d.tokens ≡ none
  pub usage_free : All (λ r. (r.0.0 == name) ≡ false) d.daily_usage
  pub sessions_free : All (λ (r : SessionMetaRow). (r.token_name == name) ≡ false) d.sessions
  pub updates_free : All (λ (r : UpdateRow). (r.token_name == name) ≡ false) d.updates
  pub files_free : All (λ (r : FileRow). (r.token_name == name) ≡ false) d.files
  pub drops_free : All (λ (r : DropMessageRow). (r.token_name == name) ≡ false) d.drop_messages

usage_day-free :
    (name : String) (day : ℕ) (t : Table)
    → All (λ r. (r.0.0 == name) ≡ false) t
    → usage_day name day t ≡ false
usage_day-free name day [] u = refl
usage_day-free name day (((n, d), count) ∷ t) u = rw (u.0, usage_day-free name day t u.1) refl

days_meet-free :
    (old new : String) (t all : Table)
    → All (λ r. (r.0.0 == new) ≡ false) all
    → days_meet old new t all ≡ false
days_meet-free old new [] all u = refl
days_meet-free old new (((name, day), count) ∷ t) all u =
    ground (arith, usage_day-free new day all u, days_meet-free old new t all u)

sessions_meet-free :
    (old new : String) (rows all : List SessionMetaRow)
    → All (λ r. (r.token_name == new) ≡ false) all
    → sessions_meet old new rows all ≡ false
sessions_meet-free old new [] all u = refl
sessions_meet-free old new (r ∷ rows) all u =
    let twin : SessionMetaRow → Bool = λ s. s.token_name == new && s.session_id == r.session_id in
    let free = find_absent twin all (
      All-map (λ s. (s.token_name == new) ≡ false) (λ s. twin s ≡ false) (λ s e. ground (arith, e))
        all u) in
    ground (arith, free, sessions_meet-free old new rows all u)

numbers_meet-free :
    (old new : String) (rows all : List UpdateRow)
    → All (λ r. (r.token_name == new) ≡ false) all
    → numbers_meet old new rows all ≡ false
numbers_meet-free old new [] all u = refl
numbers_meet-free old new (r ∷ rows) all u =
    let twin : UpdateRow → Bool = λ s. s.token_name == new && s.pts == r.pts in
    let free = find_absent twin all (
      All-map (λ s. (s.token_name == new) ≡ false) (λ s. twin s ≡ false) (λ s e. ground (arith, e))
        all u) in
    ground (arith, free, numbers_meet-free old new rows all u)

module _ (old new : String) (d : Database) where
  -- A rename to a name that nothing has is carried out.
  rename_succeeds :
      (old == new) ≡ false
      → is_some (find_where (named old) d.tokens) ≡ true
      → IsUnused new d
      → rename_token old new d ≡ (renamed true, cascade old new d)
  unfolding rename_token meets
  rename_succeeds differ there u =
      rw
        (
          differ,
          there,
          u.token_free,
          days_meet-free old new d.daily_usage d.daily_usage u.usage_free,
          sessions_meet-free old new d.sessions d.sessions u.sessions_free,
          numbers_meet-free old new d.updates d.updates u.updates_free,
        )
        refl

  -- What the new name has in the second database is what the old name has in the first.
  abbrev pub Moves : Database → Type 0
  Moves d' =
      (select (λ (r : SessionMetaRow). r.token_name == new) d'.sessions
        ≡ map (λ (r : SessionMetaRow). record r { token_name = new })
            (select (λ (r : SessionMetaRow). r.token_name == old) d.sessions))
      × (select (λ (r : UpdateRow). r.token_name == new) d'.updates
          ≡ map (λ (r : UpdateRow). record r { token_name = new })
              (select (λ (r : UpdateRow). r.token_name == old) d.updates))
      × (select (λ (r : FileRow). r.token_name == new) d'.files
          ≡ map (λ (r : FileRow). record r { token_name = new })
              (select (λ (r : FileRow). r.token_name == old) d.files))
      × ((day : ℕ) → get_today_usage new day d'.daily_usage ≡ get_today_usage old day d.daily_usage)
      × ((h : String)
          → get_token_by_hash h d'.tokens ≡ elim (get_token_by_hash h d.tokens) [
            | none ↦ none
            | some row ↦ some (if named old row then record row { name = new } else row)
          ])

  cascade-Moves : IsUnused new d → Moves (cascade old new d)
  unfolding get_token_by_hash
  cascade-Moves u = (
    select-rename (λ (r : SessionMetaRow). r.token_name) (λ r. record r { token_name = new }) old
        new d.sessions (λ r. refl) u.sessions_free,
    select-rename (λ (r : UpdateRow). r.token_name) (λ r. record r { token_name = new }) old new
        d.updates (λ r. refl) u.updates_free,
    select-rename (λ (r : FileRow). r.token_name) (λ r. record r { token_name = new }) old new
        d.files (λ r. refl) u.files_free,
    λ day. usage-rename old new d.daily_usage day u.usage_free,
    λ h.
        find-update (named old) (hashed h) (λ (r : TokenRow). record r { name = new }) d.tokens
          (λ r. refl),
  )

  -- A token that exists is renamed to a name that nothing has. Its sessions, its events and its files
  -- are then those of the new name, and so are its usage counts, and a secret finds the row that it
  -- found, under the new name if that was the old one.
  pub rename-Moves :
      (old == new) ≡ false
      → is_some (find_where (named old) d.tokens) ≡ true
      → IsUnused new d
      → ((rename_token old new d).0 ≡ renamed true) × Moves (rename_token old new d).1
  rename-Moves differ there u =
      subst (λ (r : Renamed × Database). (r.0 ≡ renamed true) × Moves r.1)
        (sym (rename_succeeds differ there u)) (refl, cascade-Moves u)

  -- No message of the new name counts for the files of the drop.
  abbrev pub OrphansDrop : FileRow → ℕ → ℕ → Bool → Database → Type 0
  OrphansDrop f limit before include_deleted d' =
      (list_drop_messages new limit none include_deleted d'.drop_messages ≡ [])
      × (is_orphan before d'.drop_messages (record f { token_name = new }) ≡ true)
      × (count_drop_file_references new f.file_id d'.drop_messages ≡ 0)

  cascade-OrphansDrop :
      (f : FileRow) (limit before : ℕ) (include_deleted : Bool)
      → IsUnused new d
      → f.session_id ≡ "drop"
      → ltb f.uploaded_at before ≡ true
      → OrphansDrop f limit before include_deleted (cascade old new d)
  unfolding list_drop_messages count_drop_file_references order_by
  cascade-OrphansDrop f limit before include_deleted u in_drop old_file =
      let unlisted = select_none (is_listed new include_deleted) d.drop_messages (
        All-map (λ (r : DropMessageRow). (r.token_name == new) ≡ false)
          (λ r. is_listed new include_deleted r ≡ false) (λ r e. ground (arith, e)) d.drop_messages
          u.drops_free) in
      let unnamed =
        All-map (λ (r : DropMessageRow). (r.token_name == new) ≡ false)
          (λ r. refers new f.file_id r ≡ false) (λ r e. rw e refl) d.drop_messages u.drops_free in
      let unfound = find_absent (refers new f.file_id) d.drop_messages unnamed in
      (
        ap (λ l. limit_rows limit (order_by is_later l)) unlisted ∙ limit_nil limit,
        rw (old_file, in_drop, unfound) refl,
        ap length (select_none (refers new f.file_id) d.drop_messages unnamed),
      )
    where
      limit_nil : (n : ℕ) → limit_rows {A = DropMessageRow} n [] ≡ []
      limit_nil zero = refl
      limit_nil (suc n) = refl

  -- The rename does not move the messages of the drop: the new name lists none, and every file of
  -- the drop that was uploaded before the cutoff is an orphan afterwards, with no message that is
  -- counted for it, whatever messages name it.
  pub rename-OrphansDrop :
      (f : FileRow) (limit before : ℕ) (include_deleted : Bool)
      → (old == new) ≡ false
      → is_some (find_where (named old) d.tokens) ≡ true
      → IsUnused new d
      → f.session_id ≡ "drop"
      → ltb f.uploaded_at before ≡ true
      → OrphansDrop f limit before include_deleted (rename_token old new d).1
  rename-OrphansDrop f limit before include_deleted differ there u in_drop old_file =
      subst (λ (r : Renamed × Database). OrphansDrop f limit before include_deleted r.1)
        (sym (rename_succeeds differ there u))
        (cascade-OrphansDrop f limit before include_deleted u in_drop old_file)
