-- ===== src/Storage/Firmwares.antt =====
-- src/storage/orm_firmwares.cpp: the table of firmwares.
pub mod Latest
pub mod Cleanup
pub mod Cache
pub mod Age
use wlan_cloud_ucentralfms.Common.{
  ℕ, ◌+◌, ◌<◌, Bool, true, false, Option, none, some, List, [], ◌∷◌, ◌++◌, if◌then◌else◌, ◌==◌,
  num_Eq, length, Text, codes, text_Eq, is_empty, Map, lookup, to_string,
}
use wlan_cloud_ucentralfms.FmsObjects.{Firmware, FirmwareRow, firmware_convert, FirmwareAgeDetails}
use wlan_cloud_ucentralfms.LatestFirmwareCache.{
  LatestFirmwareCache, add_to_cache, find_latest_firmware,
}
use wlan_cloud_ucentralfms.Orm.Schema.{
  Field, field_of_type, sized_field, ft_bigint, ft_text, ft_boolean,
}
use wlan_cloud_ucentralfms.Orm.Statements.{select_all}
use wlan_cloud_ucentralfms.Orm.Engine.{
  Convert, done, create_record, get_record, get_records, update_record, delete_record,
  delete_records, iterate,
}
use wlan_cloud_ucentralfms.Service.{Env, State, sub64}

unfoldable pub firmwares_db_fields : List Field
unfolding sized_field
firmwares_db_fields =
    sized_field (codes "id") 36 true
    ∷ field_of_type (codes "release") ft_text
    ∷ field_of_type (codes "deviceType") ft_text
    ∷ field_of_type (codes "description") ft_text
    ∷ field_of_type (codes "revision") ft_text
    ∷ field_of_type (codes "uri") ft_text
    ∷ field_of_type (codes "image") ft_text
    ∷ field_of_type (codes "imageDate") ft_bigint
    ∷ field_of_type (codes "size") ft_bigint
    ∷ field_of_type (codes "downloadCount") ft_bigint
    ∷ field_of_type (codes "firmwareHash") ft_text
    ∷ field_of_type (codes "owner") ft_text
    ∷ field_of_type (codes "location") ft_text
    ∷ field_of_type (codes "uploader") ft_text
    ∷ field_of_type (codes "digest") ft_text
    ∷ field_of_type (codes "latest") ft_boolean
    ∷ field_of_type (codes "notes") ft_text
    ∷ field_of_type (codes "created") ft_bigint
    ∷ []

-- The where clauses that the methods put together; values go in as they are.
unfoldable pub latest_clause : Text → Text
latest_clause device_type = codes " deviceType='" ++ (device_type ++ codes "' AND Latest=true ")

unfoldable pub name_clause : Text → Text → Text
name_clause release device_type =
    codes " release='" ++ (release ++ (codes "' and DeviceType='" ++ (device_type ++ codes "' ")))

unfoldable pub revision_clause : Text → Text → Text
revision_clause revision device_type =
    codes " Revision='" ++ (revision ++ (codes "' and DeviceType='" ++ (device_type ++ codes "' ")))

unfoldable pub type_clause : Text → Text
type_clause device_type = codes " DeviceType='" ++ (device_type ++ codes "' ")

unfoldable pub older_clause : ℕ → Text
older_clause limit = codes "imageDate < " ++ to_string limit

module _ (env : Env) where
  open env use {poco, firmware_engine, create_uuid}

  unfoldable pub convert : Convert FirmwareRow Firmware
  convert = firmware_convert env.notes_to_text env.notes_of_text

  -- The loop of AddFirmware: the result of UpdateRecord is not looked at.
  pub clear_latest : List Firmware → firmware_engine.Db → firmware_engine.Db
  clear_latest [] db = db
  clear_latest (i ∷ fs) db =
      clear_latest fs
        (update_record convert firmware_engine (codes "id") i.id (record i { latest = false }) db).0

  unfoldable pub clear_found : Option (List Firmware) → firmware_engine.Db → firmware_engine.Db
  unfolding clear_latest
  clear_found none db = db
  clear_found (some fs) db = clear_latest fs db

  -- The firmware comes back with its new id and its mark.
  unfoldable pub add_firmware : Firmware → State env → Firmware × Bool × State env
  add_firmware f s =
      let id = create_uuid s.uuids in
      let (cache, added) =
        add_to_cache poco f.device_type f.revision id f.image_date s.latest_cache in
      let f' : Firmware = record f { id = id; latest = added } in
      let cleared =
        if added
        then clear_found
            (get_records convert firmware_engine 0 200 (latest_clause f.device_type) [] s.firmwares)
            s.firmwares
        else s.firmwares in
      let (db, created) = create_record convert firmware_engine f' cleared in
      (f', created, record s { firmwares = db; latest_cache = cache; uuids = s.uuids + 1 })

  unfoldable pub update_firmware : Text → Firmware → State env → Bool × State env
  update_firmware id f s =
      let (db, done) = update_record convert firmware_engine (codes "id") id f s.firmwares in
      (done, record s { firmwares = db })

  unfoldable pub delete_firmware : Text → State env → Bool × State env
  delete_firmware id s =
      let (db, done) = delete_record convert firmware_engine (codes "id") id s.firmwares in
      (done, record s { firmwares = db })

  -- ManifestCreator()->MaxAge() is the argument.
  unfoldable pub remove_old_firmware : ℕ → State env → State env
  remove_old_firmware max_age s = record s {
    firmwares =
        (delete_records convert firmware_engine (older_clause (sub64 s.now max_age)) s.firmwares).0;
  }

  unfoldable pub get_firmware : Text → State env → Option Firmware
  get_firmware id s = get_record convert firmware_engine (codes "id") id s.firmwares

  abbrev pub first_of_records : Option (List Firmware) → Option Firmware
  first_of_records none = none
  first_of_records (some []) = none
  first_of_records (some (f ∷ fs)) = some f

  unfoldable pub get_firmware_by_name : Text → Text → State env → Option Firmware
  get_firmware_by_name release device_type s =
      first_of_records
        (get_records convert firmware_engine 0 2 (name_clause release device_type) [] s.firmwares)

  unfoldable pub get_firmware_by_revision : Text → Text → State env → Option Firmware
  get_firmware_by_revision revision device_type s = first_of_records (
      get_records convert firmware_engine 0 2 (revision_clause revision device_type) [] s.firmwares)

  abbrev pub or_none : Option (List Firmware) → List Firmware
  or_none none = []
  or_none (some fs) = fs

  -- GetFirmwares always returns true.
  unfoldable pub get_firmwares : ℕ → ℕ → Text → State env → List Firmware
  get_firmwares from how_many compatible s = or_none (
      get_records convert firmware_engine from how_many
        (if is_empty compatible then [] else type_clause compatible) [] s.firmwares)

  -- What PopulateLatestFirmwareCache does with each record.
  abbrev pub to_cache : Firmware → LatestFirmwareCache → LatestFirmwareCache
  to_cache f c = (add_to_cache poco f.device_type f.revision f.id f.image_date c).0

  unfoldable pub populate_latest_firmware_cache : ℕ → State env → Option (State env)
  populate_latest_firmware_cache fuel s =
      elim (iterate convert firmware_engine fuel 0 (λ f c. (true, to_cache f c)) [] s.firmwares
        s.latest_cache) [ none ↦ none | some c ↦ some (record s { latest_cache = c }) ]

  abbrev pub age_details : Text → Option Firmware → Firmware → FirmwareAgeDetails
  age_details revision current latest = record {
    latest_id = latest.id;
    image = latest.image;
    image_date = latest.image_date;
    revision = latest.revision;
    uri = latest.uri;
    age = elim current [ none ↦ 0 | some c ↦ sub64 latest.image_date c.image_date ];
    latest = revision == latest.revision;
  }

  -- `none` for the result false.
  unfoldable pub compute_firmware_age : Text → Text → State env → Option FirmwareAgeDetails
  compute_firmware_age device_type revision s =
      let current = get_firmware_by_revision revision device_type s in
      elim (find_latest_firmware device_type s.latest_cache) [
        | none ↦ none
        | some le ↦ elim (get_firmware le.id s) [
          | none ↦ none
          | some latest ↦ some (age_details revision current latest)
        ]
      ]

  -- The ids of the rows whose release the bucket does not have.
  pub ids_to_be_removed : {V : Type 0} → Map V → List FirmwareRow → List Text
  ids_to_be_removed bucket [] = []
  ids_to_be_removed bucket (t ∷ ts) = elim (lookup t.release bucket) [
    | none ↦ t.id ∷ ids_to_be_removed bucket ts
    | some entry ↦ ids_to_be_removed bucket ts
  ]

  pub delete_ids : List Text → firmware_engine.Db → firmware_engine.Db
  delete_ids [] db = db
  delete_ids (id ∷ ids) db =
      delete_ids ids (delete_record convert firmware_engine (codes "id") id db).0

  -- The SELECT is under no try: `none` for the exception that leaves the method.
  unfoldable pub remove_old_db_entries_not_in_manifest :
      {V : Type 0} → Map V → State env → Option (ℕ × State env)
  unfolding ids_to_be_removed delete_ids
  remove_old_db_entries_not_in_manifest bucket s =
      elim (firmware_engine.query select_all s.firmwares) [
        | none ↦ none
        | some ts ↦
            let ids = ids_to_be_removed bucket ts in
            some (length ids, record s { firmwares = delete_ids ids s.firmwares })
      ]
