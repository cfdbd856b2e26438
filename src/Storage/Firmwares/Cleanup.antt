-- ===== src/Storage/Firmwares/Cleanup.antt =====
-- What RemoveOldDBEntriesNotInManifest leaves in the table.
use mathlib.Core.Bool.{true≢false}
use wlan_cloud_ucentralfms.Common.{
  ℕ, ◌≡◌, refl, sym, ap, ◌∙◌, ◌≢◌, ◌↔◌, inl, inr, Bool, true, false, none, some, List, [], ◌∷◌,
  Bool-cases, Option-cases, length, In, Text, codes, Map, lookup,
}
use wlan_cloud_ucentralfms.FmsObjects.{FirmwareRow, same}
use wlan_cloud_ucentralfms.Orm.Statements.{select_all, delete_by}
use wlan_cloud_ucentralfms.Orm.Engine.{done, delete_record}
use wlan_cloud_ucentralfms.Orm.Engine.Laws.{IsTable, Accepts}
use wlan_cloud_ucentralfms.Service.{Env, State}
use wlan_cloud_ucentralfms.Storage.Firmwares.{
  ids_to_be_removed, delete_ids, remove_old_db_entries_not_in_manifest,
}

-- The bucket has the release.
unfoldable pub in_bucket : {V : Type 0} → Map V → Text → Bool
in_bucket bucket release = elim (lookup release bucket) [ none ↦ false | some v ↦ true ]

ids_to_be_removed-In :
    (env : Env) {V : Type 0} (bucket : Map V) (ts : List FirmwareRow) (id : Text)
    → In id (ids_to_be_removed env bucket ts)
    → (t : FirmwareRow) × In t ts × (t.id ≡ id) × (in_bucket bucket t.release ≡ false)
unfolding ids_to_be_removed in_bucket
ids_to_be_removed-In env bucket [] id h = absurd h
ids_to_be_removed-In env bucket (t ∷ ts) id h = elim (Option-cases (lookup t.release bucket)) [
  | inl none_there ↦ elim (rw (none_there, ids_to_be_removed) at h) [
    | inl e ↦ (t, inl refl, sym e, rw (none_there, in_bucket) refl)
    | inr rest ↦
        let (u, at, same, gone) = ids_to_be_removed-In env bucket ts id rest in
        (u, inr at, same, gone)
  ]
  | inr there ↦
      let (u, at, same, gone) =
        ids_to_be_removed-In env bucket ts id (rw (there.1, ids_to_be_removed) at h) in
      (u, inr at, same, gone)
]

In-ids_to_be_removed :
    (env : Env) {V : Type 0} (bucket : Map V) (ts : List FirmwareRow) (t : FirmwareRow)
    → In t ts
    → in_bucket bucket t.release ≡ false
    → In t.id (ids_to_be_removed env bucket ts)
unfolding ids_to_be_removed in_bucket
In-ids_to_be_removed env bucket [] t h n = absurd h
In-ids_to_be_removed env bucket (u ∷ ts) t h n = elim (Option-cases (lookup u.release bucket)) [
  | inl none_there ↦ elim h [
    | inl e ↦ rw (none_there, ids_to_be_removed, In) (inl (ap (λ (x : FirmwareRow). x.id) e))
    | inr rest ↦
        rw (none_there, ids_to_be_removed, In) (inr (In-ids_to_be_removed env bucket ts t rest n))
  ]
  | inr there ↦ elim h [
    | inl e ↦ absurd (
        true≢false (
          sym
            (ap (λ (x : FirmwareRow). in_bucket bucket x.release) e ∙ rw (there.1, in_bucket) refl)
          ∙ n))
    | inr rest ↦ rw (there.1, ids_to_be_removed, In) (In-ids_to_be_removed env bucket ts t rest n)
  ]
]

module _ (env : Env) {column : Text → FirmwareRow → Text} {holds : Text → FirmwareRow → Bool}
    (table : IsTable env.firmware_engine column holds) (accepts : Accepts env.firmware_engine)
    (id_column : (t : FirmwareRow) → column (codes "id") t ≡ t.id) where
  -- Deleting a list of ids leaves the rows with other ids.
  delete_ids-rows :
      (ids : List Text) (db : env.firmware_engine.Db) (t : FirmwareRow)
      → In t (table.rows (delete_ids env ids db))
        ↔ (In t (table.rows db) × ((id : Text) → In id ids → t.id ≢ id))
  unfolding delete_ids delete_record
  delete_ids-rows [] db t = (λ h. (h, λ id k. absurd k), λ h. h.0)
  delete_ids-rows (i ∷ ids) db t =
      let (db', e) = accepts (delete_by (codes "id") i) db in
      rw (e, done)
        (
          λ h.
              let k = (delete_ids-rows ids db' t).0 h in
              let m = (table.deleted (codes "id") i db db' t e).0 k.0 in
              (
                m.0,
                λ id at. elim at [
                  | inl eq ↦ λ same. m.1 (id_column t ∙ same ∙ eq)
                  | inr rest ↦ k.1 id rest
                ],
              ),
          λ h. (delete_ids-rows ids db' t).1 (
            (table.deleted (codes "id") i db db' t e).1
                (h.0, λ same. h.1 i (inl refl) (sym (id_column t) ∙ same)),
            λ id at. h.1 id (inr at),
          ),
        )

  -- RemoveOldDBEntriesNotInManifest, when the table takes statements and reads the id column as it is
  -- meant, its rows can be read, and no two rows share an id: it succeeds, and leaves exactly the rows
  -- whose release the bucket has.
  pub remove_old_db_entries-rows :
      {V : Type 0} (bucket : Map V) (s : State env) (ts : List FirmwareRow)
      → env.firmware_engine.query select_all s.firmwares ≡ some ts
      → ((t u : FirmwareRow)
          → In t (table.rows s.firmwares)
          → In u (table.rows s.firmwares)
          → t.id ≡ u.id
          → t ≡ u)
      → (k : ℕ) × (s' : State env) × (remove_old_db_entries_not_in_manifest env bucket s
          ≡ some (k, s'))
        × ((t : FirmwareRow)
            → In t (table.rows s'.firmwares)
              ↔ (In t (table.rows s.firmwares) × (in_bucket bucket t.release ≡ true)))
  unfolding remove_old_db_entries_not_in_manifest
  remove_old_db_entries-rows bucket s ts e unique = (
    length (ids_to_be_removed env bucket ts),
    record s { firmwares = delete_ids env (ids_to_be_removed env bucket ts) s.firmwares },
    rw (e, remove_old_db_entries_not_in_manifest) refl,
    λ t.
        let left = delete_ids-rows (ids_to_be_removed env bucket ts) s.firmwares t in
        (
          λ h.
              let k = left.0 h in
              (
                k.0,
                elim (Bool-cases (in_bucket bucket t.release)) [
                  | inl there ↦ there
                  | inr gone ↦ absurd (
                      k.1 t.id
                        (In-ids_to_be_removed env bucket ts t
                          ((table.all_rows s.firmwares ts t e).1 k.0) gone)
                        refl)
                ],
              ),
          λ h. left.1 (
            h.0,
            λ id at same.
                let (u, u_at, u_id, gone) = ids_to_be_removed-In env bucket ts id at in
                let is =
                  unique t u h.0 ((table.all_rows s.firmwares ts u e).0 u_at) (same ∙ sym u_id) in
                true≢false
                  (sym h.1 ∙ ap (λ (x : FirmwareRow). in_bucket bucket x.release) is ∙ gone),
          ),
        ),
  )
