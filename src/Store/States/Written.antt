-- ===== src/Store/States/Written.antt =====
-- The outbox under the statements of a scan's life, imports and deletions: no key twice, and a
-- notification for every failed or complete scan that was not imported.
use nuclei_security_center.Common.{
  ℕ, String, ◌≡◌, ◌≢◌, ◌∙◌, refl, Bool, true, false, List, [], ◌∷◌, ◌==◌, ◌||◌, arith, All,
  Bool-cases, Option-cases, inl, inr, is_some,
}
use nuclei_security_center.Store.Rows.{
  ScanState, queued, running, complete, failed, cancelled, ScanRow, NotifyKind, digest, failure,
  Notification, Db,
}
use nuclei_security_center.Store.Scans.{queued_for, find_scan, is_cancellable}
use nuclei_security_center.Store.Statements.{empty_db}
use nuclei_security_center.Store.Writes.{
  BundleScan, import_scan, imported_row, without_scan, without_notifications, delete_scan_row,
  Write, statement, imported, deleted, write, write_all,
}
use nuclei_security_center.Store.States.Outbox.{IsUnique, Told, AllTold, IfLocal_map}
use nuclei_security_center.Store.States.Told.{IsSound, execute-IsSound}

module _ (id : ℕ) where
  -- The notifications of other scans stay.
  queued_for-without :
      (k : ℕ) (kind : NotifyKind) (ns : List Notification)
      → k ≢ id
      → queued_for k kind (without_notifications id ns) ≡ queued_for k kind ns
  unfolding without_notifications queued_for
  queued_for-without k kind [] h = refl
  queued_for-without k kind (n ∷ ns) h = ground (arith, queued_for-without k kind ns h)

  fresh-without :
      (k : ℕ) (kind : NotifyKind) (ns : List Notification)
      → queued_for k kind ns ≡ false
      → queued_for k kind (without_notifications id ns) ≡ false
  unfolding without_notifications queued_for
  fresh-without k kind [] h = refl
  fresh-without k kind (n ∷ ns) h = ground (arith, fresh-without k kind ns)

  without-IsUnique : (ns : List Notification) → IsUnique ns → IsUnique (without_notifications id ns)
  unfolding without_notifications
  without-IsUnique [] h = tt
  without-IsUnique (n ∷ ns) (fresh, h) = elim (Bool-cases (n.scan_id == id)) [
    | inl gone ↦ rw gone (without-IsUnique ns h)
    | inr kept ↦ rw kept (fresh-without n.scan_id n.kind ns fresh, without-IsUnique ns h)
  ]

module _ (foreign : ℕ → Bool) (id : ℕ) where
  Told-without :
      (s : ScanState) (k : ℕ) (ns : List Notification)
      → k ≢ id
      → Told foreign s k ns
      → Told foreign s k (without_notifications id ns)
  Told-without failed k ns h t =
      IfLocal_map (foreign k) (λ q. queued_for-without id k failure ns h ∙ q) t
  Told-without complete k ns h t =
      IfLocal_map (foreign k) (λ q. queued_for-without id k digest ns h ∙ q) t
  Told-without queued k ns h t = tt
  Told-without running k ns h t = tt
  Told-without cancelled k ns h t = tt

  without-AllTold :
      (ns : List Notification) (rs : List ScanRow)
      → AllTold foreign ns rs
      → AllTold foreign (without_notifications id ns) (without_scan id rs)
  unfolding without_scan
  without-AllTold ns [] h = tt
  without-AllTold ns (r ∷ rs) (t, h) = elim (Bool-cases (r.id == id)) [
    | inl gone ↦ rw gone (without-AllTold ns rs h)
    | inr kept ↦ rw kept (Told-without r.state r.id ns (ground arith) t, without-AllTold ns rs h)
  ]

-- An imported scan owes no notification.
foreign-Told :
    (foreign : ℕ → Bool) (s : ScanState) (id : ℕ) (ns : List Notification)
    → foreign id ≡ true
    → Told foreign s id ns
foreign-Told foreign failed id ns h = rw h tt
foreign-Told foreign complete id ns h = rw h tt
foreign-Told foreign queued id ns h = tt
foreign-Told foreign running id ns h = tt
foreign-Told foreign cancelled id ns h = tt

module _ (foreign : ℕ → Bool) where
  import-IsSound :
      (trust : Bool) (b : BundleScan) (db : Db)
      → foreign b.id ≡ true
      → IsSound foreign db
      → IsSound foreign (import_scan trust b db)
  unfolding import_scan imported_row
  import-IsSound trust b db f h = elim (Bool-cases (is_some (find_scan b.id db.scans))) [
    | inl taken ↦ rw taken h
    | inr free ↦
        rw free (record { unique = h.unique; told = (foreign-Told foreign _ b.id _ f, h.told) })
  ]

  delete-IsSound : (id : ℕ) (db : Db) → IsSound foreign db → IsSound foreign (delete_scan_row id db)
  unfolding delete_scan_row
  delete-IsSound id db h = elim (Option-cases (find_scan id db.scans)) [
    | inl gone ↦ rw (delete_scan_row, gone) h
    | inr (r, here) ↦ elim (Bool-cases (is_cancellable r.state)) [
      | inl busy ↦ rw (delete_scan_row, here, busy) h
      | inr ended ↦
          rw (delete_scan_row, here, ended)
            (record {
              unique = without-IsUnique id db.outbox h.unique;
              told = without-AllTold foreign id db.outbox db.scans h.told;
            })
    ]
  ]

-- The write does not import a scan, or it imports one with a foreign id.
abbrev Marked : (ℕ → Bool) → Write → Type 0
Marked foreign (statement s) = Unit
Marked foreign (imported trust b) = foreign b.id ≡ true
Marked foreign (deleted id) = Unit

-- Some write imports a scan with this id.
abbrev pub is_imported : List Write → ℕ → Bool
is_imported [] id = false
is_imported (imported trust b ∷ ws) id = b.id == id || is_imported ws id
is_imported (statement s ∷ ws) id = is_imported ws id
is_imported (deleted d ∷ ws) id = is_imported ws id

wider-Marked :
    (f g : ℕ → Bool) (ws : List Write)
    → ((id : ℕ) → f id ≡ true → g id ≡ true)
    → All (Marked f) ws
    → All (Marked g) ws
wider-Marked f g [] h m = tt
wider-Marked f g (statement s ∷ ws) h (m, ms) = (tt, wider-Marked f g ws h ms)
wider-Marked f g (imported trust b ∷ ws) h (m, ms) = (h b.id m, wider-Marked f g ws h ms)
wider-Marked f g (deleted id ∷ ws) h (m, ms) = (tt, wider-Marked f g ws h ms)

is_imported-Marked : (ws : List Write) → All (Marked (is_imported ws)) ws
is_imported-Marked [] = tt
is_imported-Marked (statement s ∷ ws) = (tt, is_imported-Marked ws)
is_imported-Marked (deleted id ∷ ws) = (tt, is_imported-Marked ws)
is_imported-Marked (imported trust b ∷ ws) = (
  ground arith,
  wider-Marked (is_imported ws) _ ws (λ id h. ground (arith, h)) (is_imported-Marked ws),
)

module _ (foreign : ℕ → Bool) (lower : String → String) where
  write-IsSound :
      (w : Write) (db : Db)
      → Marked foreign w
      → IsSound foreign db
      → IsSound foreign (write lower w db)
  unfolding write
  write-IsSound (statement s) db m h = execute-IsSound foreign lower db h s
  write-IsSound (imported trust b) db m h = import-IsSound foreign trust b db m h
  write-IsSound (deleted id) db m h = delete-IsSound foreign id db h

  writes-IsSound :
      (ws : List Write) (db : Db)
      → All (Marked foreign) ws
      → IsSound foreign db
      → IsSound foreign (write_all lower ws db)
  unfolding write_all
  writes-IsSound [] db m h = h
  writes-IsSound (w ∷ ws) db (m, ms) h = writes-IsSound ws _ ms (write-IsSound w db m h)

-- From the empty database, after any of the statements of a scan's life, imports and deletions, no
-- scan has two notifications of one kind; and of the scans with an id that none of the imports has,
-- every failed one has its failure notification and every complete one its digest.
pub write_all-IsSound :
    (lower : String → String) (ws : List Write)
    → IsSound (is_imported ws) (write_all lower ws empty_db)
write_all-IsSound lower ws =
    writes-IsSound (is_imported ws) lower ws empty_db (is_imported-Marked ws)
      (record { unique = tt; told = tt })
