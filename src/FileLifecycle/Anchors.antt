-- ===== src/FileLifecycle/Anchors.antt =====
-- core/file_lifecycle.py: storage first, rows second.
use astrbot_plugin_webchat_g.Prelude.{
  ◌≡◌, refl, sym, ap, subst, ◌∙◌, String, Bool, false, not, Option, none, some, List, [], ◌∷◌, ◌&&◌,
  ◌==◌, select, some-eq, text_key, arith, eq_iff, All, All-map, Bool-cases, inl, inr, ◌⊎◌,
}
use astrbot_plugin_webchat_g.Storage.Rows.{FileRow}
use astrbot_plugin_webchat_g.Storage.Files.{
  contains, get_file, delete_files_by_ids, get_file-delete,
}
use astrbot_plugin_webchat_g.FileLifecycle.{
  Files, Deletion, deleted, refused, raised_before, raised_after, Removal, counted, uncounted,
  raised, Answers, is_nil, without_repeats, remove_object, delete_object, delete_objects,
  release_rows, release_files_safely,
}

-- A row of the table, under an identifier outside two lists, that points at the object.
abbrev pub IsAnchor : List String → List String → List FileRow → String → Type 0
IsAnchor seen ids t key =
    (id : String) × (row : FileRow) × (get_file id t ≡ some row)
    × (row.storage_key ≡ key)
    × (contains seen id ≡ false)
    × (contains ids id ≡ false)

abbrev pub AreAnchored : List String → List String → Files → Type 0
AreAnchored seen ids s = All (IsAnchor seen ids s.rows) s.objects

-- Every stored object has a row of the table that points at it.
abbrev pub IsAnchored : Files → Type 0
IsAnchored s = AreAnchored [] [] s

-- The row that the caller holds and the one in the table, if it is there, name the same object.
abbrev pub Agrees : FileRow → Option FileRow → Type 0
Agrees row none = Unit
Agrees row (some x) = x.storage_key ≡ row.storage_key

abbrev pub AreCurrent : List FileRow → List FileRow → Type 0
AreCurrent t rows = All (λ row. Agrees row (get_file row.file_id t)) rows

agreed :
    (row : FileRow) (o : Option FileRow) (x : FileRow)
    → Agrees row o
    → o ≡ some x
    → x.storage_key ≡ row.storage_key
agreed row none x a e = absurd (ground arith)
agreed row (some y) x a e = ap (λ (z : FileRow). z.storage_key) (some-eq (sym e)) ∙ a

without_repeats-All :
    (t : List FileRow) (seen : List String) (rows : List FileRow)
    → AreCurrent t rows
    → AreCurrent t (without_repeats seen rows)
unfolding without_repeats
without_repeats-All t seen [] h = tt
without_repeats-All t seen (row ∷ rows) h = elim (Bool-cases (contains seen row.file_id)) [
  | inl again ↦ rw again (without_repeats-All t seen rows h.1)
  | inr new ↦ rw new (h.0, without_repeats-All t (row.file_id ∷ seen) rows h.1)
]

-- Taking an object away leaves the others anchored.
fewer-AreAnchored :
    (seen ids : List String) (t : List FileRow) (key : String) (objects : List String)
    → All (IsAnchor seen ids t) objects
    → All (IsAnchor seen ids t) (select (λ k. not (key == k)) objects)
fewer-AreAnchored seen ids t key [] h = tt
fewer-AreAnchored seen ids t key (k ∷ objects) h = elim (Bool-cases (key == k)) [
  | inl gone ↦ rw gone (fewer-AreAnchored seen ids t key objects h.1)
  | inr stays ↦ rw stays (h.0, fewer-AreAnchored seen ids t key objects h.1)
]

-- And away from the row that pointed at it.
outside-AreAnchored :
    (seen : List String) (t : List FileRow) (row : FileRow) (objects : List String)
    → Agrees row (get_file row.file_id t)
    → All (IsAnchor seen [] t) objects
    → All (IsAnchor (row.file_id ∷ seen) [] t) (select (λ k. not (row.storage_key == k)) objects)
outside-AreAnchored seen t row [] a h = tt
outside-AreAnchored seen t row (k ∷ objects) a h = elim (Bool-cases (row.storage_key == k)) [
  | inl gone ↦ rw gone (outside-AreAnchored seen t row objects a h.1)
  | inr stays ↦
      let (id, x, at, points, out, none_) = h.0 in
      let other : (row.file_id == id) ≡ false = elim (Bool-cases (row.file_id == id)) [
        | inr differs ↦ differs
        | inl same ↦
            let e : row.file_id ≡ id = (eq_iff row.file_id id).0 same in
            let x_key = agreed row (get_file row.file_id t) x a (rw e at) in
            absurd (ground (arith, (eq_iff row.storage_key k).1 (sym x_key ∙ points), stays))
      ] in
      rw stays
        ((id, x, at, points, rw other out, refl), outside-AreAnchored seen t row objects a h.1)
]

pub deletion_cases :
    (d : Deletion) → (d ≡ deleted) ⊎ (d ≡ refused) ⊎ (d ≡ raised_before) ⊎ (d ≡ raised_after)
deletion_cases deleted = inl refl
deletion_cases refused = inr (inl refl)
deletion_cases raised_before = inr (inr (inl refl))
deletion_cases raised_after = inr (inr (inr refl))

pub removal_cases : (r : Removal) → (r ≡ counted) ⊎ (r ≡ uncounted) ⊎ (r ≡ raised)
removal_cases counted = inl refl
removal_cases uncounted = inr (inl refl)
removal_cases raised = inr (inr refl)

moved :
    (i : String) (seen ids : List String) (t : List FileRow) (key : String)
    → IsAnchor (i ∷ seen) ids t key
    → IsAnchor seen (i ∷ ids) t key
moved i seen ids t key (id, row, at, points, out, kept) =
    (id, row, at, points, ground (arith, out), ground (arith, out, kept))

delete_objects-AreAnchored :
    (a : Answers) (seen : List String) (rows : List FileRow) (s : Files)
    → AreCurrent s.rows rows
    → AreAnchored seen [] s
    → ((delete_objects a rows s).1.rows ≡ s.rows)
      × All (IsAnchor seen (delete_objects a rows s).0 s.rows) (delete_objects a rows s).1.objects
unfolding delete_objects delete_object
delete_objects-AreAnchored a seen [] s c h = (refl, h)
delete_objects-AreAnchored a seen (row ∷ rows) s c h =
    let without : Files = remove_object row.storage_key s in
    let kept = delete_objects-AreAnchored a seen rows s c.1 h in
    let lost =
      delete_objects-AreAnchored a seen rows without c.1
        (fewer-AreAnchored seen [] s.rows row.storage_key s.objects h) in
    elim (deletion_cases (a.deletion row.file_id)) [
      | inr (inl e) ↦ rw (delete_object, e) kept
      | inr (inr (inl e)) ↦ rw (delete_object, e) kept
      | inr (inr (inr e)) ↦ rw (delete_object, e) lost
      | inl e ↦
          let (same, out) =
            delete_objects-AreAnchored a (row.file_id ∷ seen) rows without c.1
              (outside-AreAnchored seen s.rows row s.objects c.0 h) in
          let ids = (delete_objects a rows without).0 in
          rw (delete_object, e)
            (
              same,
              All-map (IsAnchor (row.file_id ∷ seen) ids s.rows)
                  (IsAnchor seen (row.file_id ∷ ids) s.rows)
                  (λ key x. moved row.file_id seen ids s.rows key x)
                  (delete_objects a rows without).1.objects out,
            )
    ]

still-anchored :
    (ids : List String) (t : List FileRow) (objects : List String)
    → All (IsAnchor [] ids t) objects
    → All (IsAnchor [] [] (delete_files_by_ids ids t).1) objects
still-anchored ids t objects h =
    All-map (IsAnchor [] ids t) (IsAnchor [] [] (delete_files_by_ids ids t).1)
      (λ key (id, row, at, points, out, kept).
        (id, row, rw (get_file-delete ids t id, kept) at, points, refl, refl))
      objects h

whole-anchored :
    (ids : List String) (t : List FileRow) (objects : List String)
    → All (IsAnchor [] ids t) objects
    → All (IsAnchor [] [] t) objects
whole-anchored ids t objects h =
    All-map (IsAnchor [] ids t) (IsAnchor [] [] t)
      (λ key (id, row, at, points, out, kept). (id, row, at, points, refl, refl)) objects h

release_rows-IsAnchored :
    (a : Answers) (delete_db : Bool) (ids : List String) (s : Files)
    → AreAnchored [] ids s
    → IsAnchored (release_rows a delete_db ids s).1
unfolding release_rows
release_rows-IsAnchored a delete_db ids s h = elim (Bool-cases (not (is_nil ids) && delete_db)) [
  | inr skipped ↦ rw skipped (whole-anchored ids s.rows s.objects h)
  | inl asked ↦ elim (removal_cases a.removal) [
    | inl e ↦ rw (asked, e) (still-anchored ids s.rows s.objects h)
    | inr (inl e) ↦ rw (asked, e) (still-anchored ids s.rows s.objects h)
    | inr (inr e) ↦ rw (asked, e) (whole-anchored ids s.rows s.objects h)
  ]
]

-- No stored object loses its last row: if every stored object has a row of the table that points at
-- it, and the given rows agree with the table on the object's key, this holds after
-- `release_files_safely`, however the store answers for each file and whether the table's delete
-- is carried out or raises.
pub release_keeps_anchors :
    (a : Answers) (delete_db : Bool) (rows : List FileRow) (s : Files)
    → AreCurrent s.rows rows
    → IsAnchored s
    → IsAnchored (release_files_safely a delete_db rows s).1
unfolding release_files_safely
release_keeps_anchors a delete_db rows s c h =
    let once = without_repeats [] rows in
    let (same, out) =
      delete_objects-AreAnchored a [] once s (without_repeats-All s.rows [] rows c) h in
    elim (Bool-cases (is_nil once)) [
      | inl empty ↦ rw empty h
      | inr some_rows ↦ elim (Bool-cases a.has_store) [
        | inr no_store ↦ rw (some_rows, no_store) h
        | inl store ↦
            rw (some_rows, store)
              (release_rows-IsAnchored a delete_db (delete_objects a once s).0
                (delete_objects a once s).1
                (subst
                  (λ t.
                    All (IsAnchor [] (delete_objects a once s).0 t)
                      (delete_objects a once s).1.objects)
                  (sym same) out))
      ]
    ]
