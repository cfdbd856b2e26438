-- ===== src/FmsObjects/RoundTrips.antt =====
-- What the service sends of its objects is read back as it was: to_json and from_json of the structs
-- of src/RESTObjects/RESTAPI_FMSObjects.cpp.
use wlan_cloud_ucentralfms.Common.{
  ◌^◌, ◌<◌, ◌≡◌, refl, ap, ◌∙◌, true, false, List, [], All, All-mono, text_eq,
}
use wlan_cloud_ucentralfms.Json.{Json, JsonLaws}
use wlan_cloud_ucentralfms.Json.Struct.{to_json}
use wlan_cloud_ucentralfms.Json.RoundTrip.{distinct, Restores, ◌&◌, copied, from_json_written}
use wlan_cloud_ucentralfms.Json.Members.{
  text-Restored, number-Restored, bool-Restored, vector-Restored,
}
use wlan_cloud_ucentralfms.SecurityObjects.{NoteInfo, fresh_note_info, note_info_fields}
use wlan_cloud_ucentralfms.FmsObjects.{Firmware, RevisionHistoryEntry, NoteInfo}
use wlan_cloud_ucentralfms.FmsObjects.Firmwares.{
  fresh_firmware, firmware_fields, firmware_from_json,
}

-- The numbers of a note, a firmware and a history entry are those of a uint64_t.
abbrev pub FitsNote : NoteInfo → Type 0
FitsNote n = n.created < 2 ^ 64

abbrev pub FitsFirmware : Firmware → Type 0
FitsFirmware f =
    (f.image_date < 2 ^ 64)
    × (f.size < 2 ^ 64)
    × (f.download_count < 2 ^ 64)
    × All FitsNote f.notes
    × (f.created < 2 ^ 64)

abbrev pub FitsEntry : RevisionHistoryEntry → Type 0
FitsEntry e = e.upgraded < 2 ^ 64

module _ {Var Object : Type 0} (J : Json Var Object) (laws : JsonLaws J) where
  note_restored :
      (n : NoteInfo)
      → FitsNote n
      → Restores J (note_info_fields J) n fresh_note_info
        × (copied (note_info_fields J) n fresh_note_info ≡ n)
  unfolding note_info_fields
  note_restored n h = (
    number-Restored J laws n.created 0 h
        & text-Restored J laws n.created_by []
        & text-Restored J laws n.note []
        & tt,
    refl,
  )

  note_names : distinct (note_info_fields J) ≡ true
  unfolding note_info_fields text_eq
  note_names = refl

  notes_restored :
      (ns : List NoteInfo)
      → All FitsNote ns
      → All
          (λ n.
            Restores J (note_info_fields J) n fresh_note_info
            × (copied (note_info_fields J) n fresh_note_info ≡ n))
          ns
  notes_restored ns =
      All-mono FitsNote
        (λ n.
          Restores J (note_info_fields J) n fresh_note_info
          × (copied (note_info_fields J) n fresh_note_info ≡ n))
        note_restored ns

  firmware_restored :
      (f : Firmware) → FitsFirmware f → Restores J (firmware_fields J) f fresh_firmware
  unfolding firmware_fields
  firmware_restored f (h1, h2, h3, h4, h5) =
      let t = text-Restored J laws in
      t f.id []
      & t f.release []
      & t f.device_type []
      & t f.description []
      & t f.revision []
      & t f.uri []
      & t f.image []
      & number-Restored J laws f.image_date 0 h1
      & number-Restored J laws f.size 0 h2
      & number-Restored J laws f.download_count 0 h3
      & t f.firmware_hash []
      & t f.owner []
      & t f.location []
      & t f.uploader []
      & t f.digest []
      & bool-Restored J laws f.latest false
      & vector-Restored J laws (note_info_fields J) note_names fresh_note_info f.notes
          (notes_restored f.notes h4)
      & number-Restored J laws f.created 0 h5
      & tt

  firmware_names : distinct (firmware_fields J) ≡ true
  unfolding firmware_fields text_eq
  firmware_names = refl

  firmware_copied : (f : Firmware) → copied (firmware_fields J) f fresh_firmware ≡ f
  unfolding firmware_fields
  firmware_copied f = refl

  -- A firmware that was written to a JSON object is read as it was from the text of that object, its
  -- notes included.
  pub firmware_from_json-to_json :
      (f : Firmware)
      → FitsFirmware f
      → firmware_from_json J (J.reread (to_json J (firmware_fields J) f J.empty)) fresh_firmware
        ≡ (true, f)
  unfolding firmware_from_json
  firmware_from_json-to_json f h =
      ap (λ p. (true, p.1))
        (from_json_written J laws (firmware_fields J) f fresh_firmware J.empty firmware_names
          (firmware_restored f h))
      ∙ ap (λ g. (true, g)) (firmware_copied f)
