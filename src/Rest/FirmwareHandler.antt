-- ===== src/Rest/FirmwareHandler.antt =====
-- src/RESTAPI/RESTAPI_firmwareHandler.cpp: one firmware.
use mathlib.Core.Path.{subst}
use wlan_cloud_ucentralfms.Common.{
  ℕ, ◌+◌, ◌≡◌, refl, sym, ap, inl, inr, Bool, false, Option, none, some, List, [], ◌∷◌, ◌++◌, map,
  if◌then◌else◌, Option-cases, In, Text, codes, is_empty,
}
use wlan_cloud_ucentralfms.Orm.Statements.{update_by}
use wlan_cloud_ucentralfms.Orm.Engine.{done, update_record}
use wlan_cloud_ucentralfms.FmsObjects.{Firmware, FirmwareRow, NoteInfo}
use wlan_cloud_ucentralfms.Orm.Engine.Laws.{IsTable, Accepts}
use wlan_cloud_ucentralfms.Service.{Env, State}
use wlan_cloud_ucentralfms.Storage.Firmwares.{
  convert, add_firmware, update_firmware, delete_firmware, get_firmware,
}
use wlan_cloud_ucentralfms.Rest.{
  Response, answer, missing_uuid, invalid_json_document, record_not_created, could_not_be_deleted,
  record_not_updated, ok, not_found, bad_request, firmware_object,
}

-- What DoPut reads of a body that is a firmware: its description and its notes, when they are there.
pub record FirmwareUpdate : Type 0 where
  pub description : Option Text
  pub notes : Option (List NoteInfo)

module _ (env : Env) where
  abbrev pub get_answer : Option Firmware → Response
  get_answer none = not_found
  get_answer (some f) = firmware_object f

  -- DoGet
  unfoldable pub get : Text → State env → Response
  get uuid s =
      if is_empty uuid then bad_request missing_uuid else get_answer (get_firmware env uuid s)

  -- DoPost; `none` is a body whose from_json returns false, which Firmware::from_json never does.
  unfoldable pub post : Option Firmware → State env → Response × State env
  post none s = (bad_request invalid_json_document, s)
  post (some f) s =
      let (f', created, s') =
        add_firmware env (record f { id = env.create_uuid s.uuids })
          (record s { uuids = s.uuids + 1 }) in
      (answer created (firmware_object f') (bad_request record_not_created), s')

  -- DoDelete
  unfoldable pub delete : Text → State env → Response × State env
  delete uuid s =
      if is_empty uuid
      then (bad_request missing_uuid, s)
      else let (done, s') = delete_firmware env uuid s in
        (answer done ok (bad_request could_not_be_deleted), s')

  -- The notes of a request get the time and the user.
  abbrev pub signed : ℕ → Text → Option (List NoteInfo) → List NoteInfo
  signed now email none = []
  signed now email (some notes) =
      map (λ n. record { created = now; created_by = email; note = n.note }) notes

  abbrev pub described : Option Text → Firmware → Firmware
  described none f = f
  described (some d) f = record f { description = d }

  abbrev pub changed : Text → FirmwareUpdate → ℕ → Firmware → Firmware
  changed email u now f =
      let f' = described u.description f in
      record f' { notes = f'.notes ++ signed now email u.notes }

  abbrev pub put_found :
      Text → Text → Option FirmwareUpdate → Option Firmware → State env → Response × State env
  put_found email uuid o none s = (not_found, s)
  put_found email uuid none (some f) s = (bad_request invalid_json_document, s)
  put_found email uuid (some u) (some f) s =
      let (done, s') = update_firmware env uuid (changed email u s.now f) s in
      (answer done (firmware_object (changed email u s.now f)) (bad_request record_not_updated), s')

  -- DoPut, for a user; `none` is a body whose from_json returns false, which Firmware::from_json never
  -- does.
  unfoldable pub put : Text → Text → Option FirmwareUpdate → State env → Response × State env
  put email uuid o s =
      if is_empty uuid
      then (bad_request missing_uuid, s)
      else put_found email uuid o (get_firmware env uuid s) s

module _ (env : Env) {column : Text → FirmwareRow → Text} {holds : Text → FirmwareRow → Bool}
    (table : IsTable env.firmware_engine column holds) (accepts : Accepts env.firmware_engine) where
  updated_row :
      (uuid : Text) (g : Firmware) (s : State env)
      → (answer
            (update_firmware env uuid g s).0
            (firmware_object g)
            (bad_request record_not_updated)
          ≡ firmware_object g)
        × ((t : FirmwareRow)
            → In t (table.rows (update_firmware env uuid g s).1.firmwares)
            → column (codes "id") t ≡ uuid
            → t ≡ (convert env).to_tuple g)
  unfolding update_firmware update_record
  updated_row uuid g s =
      let (db, e) = accepts (update_by (codes "id") uuid ((convert env).to_tuple g)) s.firmwares in
      rw (e, done)
        (
          refl,
          λ t at is.
              elim (table.updated (codes "id") uuid ((convert env).to_tuple g) s.firmwares db t e
                at) [ inl old ↦ absurd (old.1 is) | inr new ↦ new ],
        )

  -- The description of the request when it has one, and the notes of the request behind the old ones,
  -- each with its text, by the user and at the time of the request.
  abbrev pub asked_description : Option Text → Text → Text
  asked_description none old = old
  asked_description (some d) old = d

  abbrev pub asked_notes : ℕ → Text → Option (List NoteInfo) → List NoteInfo
  asked_notes now email none = []
  asked_notes now email (some []) = []
  asked_notes now email (some (n ∷ ns)) =
      record { created = now; created_by = email; note = n.note } ∷ asked_notes now email (some ns)

  abbrev pub as_asked : Text → FirmwareUpdate → ℕ → Firmware → Firmware
  as_asked email u now f = record f {
    description = asked_description u.description f.description;
    notes = f.notes ++ asked_notes now email u.notes;
  }

  signed-asked_notes :
      (now : ℕ) (email : Text) (o : Option (List NoteInfo))
      → signed env now email o ≡ asked_notes now email o
  signed-asked_notes now email none = refl
  signed-asked_notes now email (some []) = refl
  signed-asked_notes now email (some (n ∷ ns)) =
      ap (λ l. record { created = now; created_by = email; note = n.note } ∷ l)
        (signed-asked_notes now email (some ns))

  changed-as_asked :
      (email : Text) (description : Option Text) (notes : Option (List NoteInfo)) (now : ℕ)
      (f : Firmware)
      → changed env email (record { description = description; notes = notes }) now f
        ≡ as_asked email (record { description = description; notes = notes }) now f
  changed-as_asked email none notes now f =
      ap (λ l. record f { notes = f.notes ++ l }) (signed-asked_notes now email notes)
  changed-as_asked email (some d) notes now f =
      ap (λ l. record f { description = d; notes = f.notes ++ l })
        (signed-asked_notes now email notes)

  -- What a PUT comes to, by the firmware that the table has under the id.
  abbrev pub IsAnswered : Text → Text → FirmwareUpdate → State env → Option Firmware → Type 0
  IsAnswered email uuid u s none = put env email uuid (some u) s ≡ (not_found, s)
  IsAnswered email uuid u s (some f) =
      ((put env email uuid (some u) s).0 ≡ firmware_object (as_asked email u s.now f))
      × ((t : FirmwareRow)
          → In t (table.rows (put env email uuid (some u) s).1.firmwares)
          → column (codes "id") t ≡ uuid
          → t ≡ (convert env).to_tuple (as_asked email u s.now f))

  -- A PUT that has an id, when the table takes statements. For a firmware that the table has: the answer
  -- is the stored firmware with the description of the request, when it has one, and the notes of the
  -- request, by the user and at the present time, behind its own, and nothing else of it changed; and
  -- that is what every row of the id then has. For another the answer is that it is not there, and
  -- nothing changes.
  pub put-row :
      (email uuid : Text) (u : FirmwareUpdate) (s : State env)
      → is_empty uuid ≡ false
      → IsAnswered email uuid u s (get_firmware env uuid s)
  unfolding put
  put-row email uuid u s given = elim (Option-cases (get_firmware env uuid s)) [
    | inl missing ↦
        subst (IsAnswered email uuid u s) (sym missing) (rw (given, missing, put_found) refl)
    | inr (f, stored) ↦ subst (IsAnswered email uuid u s) (sym stored) (
        subst
          (λ g.
            ((put env email uuid (some u) s).0 ≡ firmware_object g)
            × ((t : FirmwareRow)
                → In t (table.rows (put env email uuid (some u) s).1.firmwares)
                → column (codes "id") t ≡ uuid
                → t ≡ (convert env).to_tuple g))
          (changed-as_asked email u.description u.notes s.now f)
          (rw (given, stored, put_found) (updated_row uuid (changed env email u s.now f) s)))
  ]
