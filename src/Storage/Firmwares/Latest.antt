-- ===== src/Storage/Firmwares/Latest.antt =====
-- The column `latest` after AddFirmware.
use mathlib.Core.Bool.{false≢true}
use wlan_cloud_ucentralfms.Poco.{Poco}
use wlan_cloud_ucentralfms.LatestFirmwareCache.{
  LatestFirmwareCacheEntry, LatestFirmwareCache, offer, add_to_cache, find_latest_firmware,
}
use wlan_cloud_ucentralfms.Common.{
  ℕ, ◌<◌, ◌≡◌, refl, sym, ap, ◌∙◌, ◌↔◌, inl, inr, Bool, true, false, ◌&&◌, some, List, [], ◌∷◌, map,
  arith, Bool-cases, ◌==◌, num_Eq, length, In, Text, codes, text_eq_refl, text_Eq, Lacks,
}
use wlan_cloud_ucentralfms.FmsObjects.{
  Firmware, FirmwareRow, firmware_to_tuple, firmware_of_tuple, firmware_convert, same,
}
use wlan_cloud_ucentralfms.Orm.Where.{quote}
use wlan_cloud_ucentralfms.Orm.Statements.{insert_row, select_where, update_by}
use wlan_cloud_ucentralfms.Orm.Engine.{done, some_rows, create_record, get_records, update_record}
use wlan_cloud_ucentralfms.Orm.Engine.Laws.{IsTable, Accepts}
use wlan_cloud_ucentralfms.Service.{Env, State}
use wlan_cloud_ucentralfms.Storage.Firmwares.{
  latest_clause, convert, clear_latest, clear_found, add_firmware,
}

-- The engine reads the column of ids, and the clause for the rows marked latest of a device type
-- whose name has no quote.
pub record ReadsFirmwares (column : Text → FirmwareRow → Text) (holds : Text → FirmwareRow → Bool)
    : Type 0 where
  pub id_column : (t : FirmwareRow) → column (codes "id") t ≡ t.id
  pub latest_clause_reads :
      (d : Text) (t : FirmwareRow)
      → Lacks quote d
      → holds (latest_clause d) t ≡ (t.device_type == d && t.latest)

and-false : (b : Bool) → (b && false) ≡ false
and-false true = refl
and-false false = refl

module _ (env : Env) {column : Text → FirmwareRow → Text} {holds : Text → FirmwareRow → Bool}
    (table : IsTable env.firmware_engine column holds) (accepts : Accepts env.firmware_engine)
    (reads : ReadsFirmwares column holds) (d : Text) (plain : Lacks quote d) where
  abbrev Marked : env.firmware_engine.Db → FirmwareRow → Type 0
  Marked db u = In u (table.rows db) × (holds (latest_clause d) u ≡ true)

  -- Every marked row has its id in the list.
  abbrev Listed : List Firmware → env.firmware_engine.Db → Type 0
  Listed fs db = (u : FirmwareRow) → Marked db u → (i : Firmware) × In i fs × (u.id ≡ i.id)

  -- The row that the loop writes for `i` is not marked.
  unmarked_row :
      (i : Firmware)
      → holds (latest_clause d) ((convert env).to_tuple (record i { latest = false })) ≡ false
  unfolding firmware_to_tuple convert firmware_convert
  unmarked_row i =
      reads.latest_clause_reads d ((convert env).to_tuple (record i { latest = false })) plain
      ∙ and-false (i.device_type == d)

  update-Listed :
      (i : Firmware) (fs : List Firmware) (db db' : env.firmware_engine.Db)
      → env.firmware_engine.execute
          (update_by (codes "id") i.id ((convert env).to_tuple (record i { latest = false })))
          db
        ≡ some db'
      → Listed (i ∷ fs) db
      → Listed fs db'
  update-Listed i fs db db' e listed u (at, marked) =
      elim (table.updated (codes "id") i.id _ db db' u e at) [
        | inl old ↦
            let (j, j_at, same) = listed u (old.0, marked) in
            elim j_at [
              | inl j_is ↦
                  absurd (old.1 (reads.id_column u ∙ (same ∙ ap (λ (x : Firmware). x.id) j_is)))
              | inr rest ↦ (j, rest, same)
            ]
        | inr new ↦
            absurd (false≢true (sym (ap (holds (latest_clause d)) new ∙ unmarked_row i) ∙ marked))
      ]

  clear_latest-unmarked :
      (fs : List Firmware) (db : env.firmware_engine.Db)
      → Listed fs db
      → (u : FirmwareRow) → In u (table.rows (clear_latest env fs db))
      → holds (latest_clause d) u ≡ false
  unfolding clear_latest update_record
  clear_latest-unmarked [] db listed u at = elim (Bool-cases (holds (latest_clause d) u)) [
    | inl t ↦ absurd ((listed u (at, t)).1)
    | inr f ↦ f
  ]
  clear_latest-unmarked (i ∷ fs) db listed u at =
      let (db', e) =
        accepts (update_by (codes "id") i.id ((convert env).to_tuple (record i { latest = false })))
          db in
      clear_latest-unmarked fs db' (update-Listed i fs db db' e listed) u (rw (e, done) at at)

-- AddToCache never returns false.
add_to_cache-always :
    (poco : Poco) (d r id : Text) (t : ℕ) (c : LatestFirmwareCache)
    → (add_to_cache poco d r id t c).1 ≡ true
unfolding add_to_cache
add_to_cache-always poco d r id t c = ground arith

In-map : {A B : Type 0} (f : A → B) (xs : List A) (x : A) → In x xs → In (f x) (map f xs)
In-map f [] x h = h
In-map f (y ∷ ys) x (inl e) = inl (ap f e)
In-map f (y ∷ ys) x (inr h) = inr (In-map f ys x h)

module _ (env : Env) {column : Text → FirmwareRow → Text} {holds : Text → FirmwareRow → Bool}
    (table : IsTable env.firmware_engine column holds) (accepts : Accepts env.firmware_engine)
    (reads : ReadsFirmwares column holds) where
  get_records-query :
      (w : Text) (db : env.firmware_engine.Db) (ts : List FirmwareRow)
      → env.firmware_engine.query (select_where w [] 0 200) db ≡ some ts
      → get_records (convert env) env.firmware_engine 0 200 w [] db
        ≡ some_rows ((convert env).of_tuple) ts
  unfolding get_records
  get_records-query w db ts e = rw (e, get_records) refl

  found-Listed :
      (d : Text) (db : env.firmware_engine.Db) (ts : List FirmwareRow)
      → env.firmware_engine.query (select_where (latest_clause d) [] 0 200) db ≡ some ts
      → length ts < 200
      → (u : FirmwareRow) → In u (table.rows db) × (holds (latest_clause d) u ≡ true)
      → (i : Firmware) × In i (map (convert env).of_tuple ts) × (u.id ≡ i.id)
  unfolding firmware_of_tuple convert firmware_convert
  found-Listed d db ts e short u m = (
    (convert env).of_tuple u,
    In-map ((convert env).of_tuple) ts u
        (table.where_complete (latest_clause d) [] 200 db ts u e short m.0 m.1),
    refl,
  )

  -- The rows that the clause of AddFirmware finds are all cleared.
  clear_found-unmarked :
      (d : Text) (db : env.firmware_engine.Db) (ts : List FirmwareRow)
      → Lacks quote d
      → env.firmware_engine.query (select_where (latest_clause d) [] 0 200) db ≡ some ts
      → length ts < 200
      → (u : FirmwareRow)
      → In u (
          table.rows (
            clear_found env
              (get_records (convert env) env.firmware_engine 0 200 (latest_clause d) [] db)
              db))
      → holds (latest_clause d) u ≡ false
  unfolding clear_found
  clear_found-unmarked d db [] plain e short u at = elim (Bool-cases (holds (latest_clause d) u)) [
    | inl t ↦ absurd (
        table.where_complete (latest_clause d) [] 200 db [] u e short
          (rw (get_records-query (latest_clause d) db [] e) at at) t)
    | inr f ↦ f
  ]
  clear_found-unmarked d db (t ∷ ts) plain e short u at =
      clear_latest-unmarked env table accepts reads d plain (map ((convert env).of_tuple) (t ∷ ts))
        db (found-Listed d db (t ∷ ts) e short) u
        (rw (get_records-query (latest_clause d) db (t ∷ ts) e) at at)

  row_marked :
      (g : Firmware)
      → Lacks quote g.device_type
      → g.latest ≡ true
      → holds (latest_clause g.device_type) ((convert env).to_tuple g) ≡ true
  unfolding convert firmware_convert firmware_to_tuple
  row_marked g plain marked =
      reads.latest_clause_reads g.device_type ((convert env).to_tuple g) plain
      ∙ rw (marked, text_eq_refl g.device_type) refl

  -- Writing a marked row where no row is marked.
  insert-latest :
      (g : Firmware) (db : env.firmware_engine.Db)
      → Lacks quote g.device_type
      → g.latest ≡ true
      → ((u : FirmwareRow) → In u (table.rows db) → holds (latest_clause g.device_type) u ≡ false)
      → ((create_record (convert env) env.firmware_engine g db).1 ≡ true)
        × ((u : FirmwareRow)
            → (In u (table.rows (create_record (convert env) env.firmware_engine g db).0)
                × (holds (latest_clause g.device_type) u ≡ true))
              ↔ (u ≡ (convert env).to_tuple g))
  unfolding create_record
  insert-latest g db plain marked none_marked =
      let (db', e) = accepts (insert_row ((convert env).to_tuple g)) db in
      rw (e, done) (refl, λ u. (to e u, from e u))
    where
      to :
          {db' : env.firmware_engine.Db}
          → env.firmware_engine.execute (insert_row ((convert env).to_tuple g)) db ≡ some db'
          → (u : FirmwareRow)
          → In u (table.rows db') × (holds (latest_clause g.device_type) u ≡ true)
          → u ≡ (convert env).to_tuple g
      to {db'} e u (at, m) = elim ((table.inserted ((convert env).to_tuple g) db db' u e).0 at) [
        | inl old ↦ absurd (false≢true (sym (none_marked u old) ∙ m))
        | inr new ↦ new
      ]

      from :
          {db' : env.firmware_engine.Db}
          → env.firmware_engine.execute (insert_row ((convert env).to_tuple g)) db ≡ some db'
          → (u : FirmwareRow) → u ≡ (convert env).to_tuple g
          → In u (table.rows db') × (holds (latest_clause g.device_type) u ≡ true)
      from {db'} e u new = (
        (table.inserted ((convert env).to_tuple g) db db' u e).1 (inr new),
        ap (holds (latest_clause g.device_type)) new ∙ row_marked g plain marked,
      )

  -- AddFirmware, when the table takes statements and reads the id column and the clause for marked
  -- rows as they are meant, the marked rows of the type can be read before the call and are fewer than
  -- 200, and the device type has no quote: it succeeds, and after it the only row of the type that is
  -- marked latest is the row of the returned firmware.
  pub add_firmware-latest :
      (f : Firmware) (s : State env) (ts : List FirmwareRow)
      → Lacks quote f.device_type
      → env.firmware_engine.query (select_where (latest_clause f.device_type) [] 0 200) s.firmwares
        ≡ some ts
      → length ts < 200
      → ((add_firmware env f s).1 ≡ true)
        × ((u : FirmwareRow)
            → (In u (table.rows (add_firmware env f s).2.firmwares)
                × (holds (latest_clause f.device_type) u ≡ true))
              ↔ (u ≡ (convert env).to_tuple (add_firmware env f s).0))
  unfolding add_firmware
  add_firmware-latest f s ts plain e short =
      let always =
        add_to_cache-always env.poco f.device_type f.revision (env.create_uuid s.uuids) f.image_date
          s.latest_cache in
      rw (always) (
        insert-latest (record f { id = env.create_uuid s.uuids; latest = true })
          (clear_found env
            (get_records (convert env) env.firmware_engine 0 200 (latest_clause f.device_type) []
              s.firmwares)
            s.firmwares)
          plain refl (clear_found-unmarked f.device_type s.firmwares ts plain e short))

-- AddFirmware of an image that is older than the cached one of its type: the image is marked
-- latest all the same, while the cache keeps the newer one.
pub add_firmware-older :
    (env : Env) (f : Firmware) (s : State env) (e : LatestFirmwareCacheEntry)
    → find_latest_firmware f.device_type s.latest_cache ≡ some e
    → f.image_date < e.time_stamp
    → ((add_firmware env f s).0.latest ≡ true)
      × (find_latest_firmware f.device_type (add_firmware env f s).2.latest_cache ≡ some e)
unfolding add_firmware add_to_cache offer find_latest_firmware
add_firmware-older env f s e found older = ground (arith, found)
