-- ===== src/Dataset/Passes.antt =====
-- LoadFromGzipJSON of internal/dataset/dataset.go: its two passes over one file.
use rinha_de_backend.Base.{
  ℕ, zero, suc, ◌*◌, ◌≤◌, ◌<◌, ◌≡◌, refl, ap, ◌⊎◌, inl, inr, Bool, true, false, List, [], ◌∷◌, map,
  arith, All, All-append, All-get_or_default, length, length-append, Bool-cases, ==_iff, le→ltb,
  if◌then◌else◌, pos,
}
use rinha_de_backend.Api.RawHttp.{Bytes}
use rinha_de_backend.Dataset.{Dataset}
use rinha_de_backend.Specialist.Members.{QuantizedRows}
use rinha_de_backend.Vector.Number.{Float64}
use rinha_de_backend.Vector.Quant.{quantize}
use rinha_de_backend.Vector.Fast.Range.{InGrid, quantize-InGrid}
use rinha_de_backend.Dataset.Reader.{
  DecimalOps, Row, Reading, done, failed, Failure, read_until, read_entry, vector_key, Scanned,
  counted, stopped, unfinished, behind_row, scan_from, scan, loaded, not_loaded, vectors_of_rows,
  labels_of_rows, fill, load_passes,
}
use rinha_de_backend.Dataset.Loads.{read_entry-whole, read_until-shorter}

-- The scan has come to an end, and every row has its dimensions.
abbrev Ends : Scanned → Type 0
Ends (counted rows) = All (λ r. length r.vec ≡ 14) rows
Ends (stopped rows e) = All (λ r. length r.vec ≡ 14) rows
Ends unfinished = ⊥

behind_row-Ends : (r : Row) (sc : Scanned) → length r.vec ≡ 14 → Ends sc → Ends (behind_row r sc)
unfolding behind_row
behind_row-Ends r (counted rows) h k = (h, k)
behind_row-Ends r (stopped rows e) h k = (h, k)
behind_row-Ends r unfinished h k = k

module _ (fl : DecimalOps) where
  scan_from-Ends :
      (fuel : ℕ) (clean : Bool) (text : Bytes)
      → length text < fuel
      → Ends (scan_from fl fuel clean text)
  unfolding scan_from
  scan_from-Ends zero clean text h = absurd (omega arith)
  scan_from-Ends (suc fuel) clean text h =
      on_key (read_until vector_key 0 text) refl (λ rest lt. scan_from-Ends fuel clean rest lt)
    where
      on_entry :
          (entry : Bytes) (o : Reading (Row × Bytes))
          → read_entry fl entry ≡ o
          → length entry < length text
          → ((rest : Bytes) → length rest < fuel → Ends (scan_from fl fuel clean rest))
          → Ends (elim o [
            | failed e ↦ stopped [] e
            | done r ↦ behind_row r.0 (scan_from fl fuel clean r.1)
          ])
      on_entry entry (failed e) eq lt further = tt
      on_entry entry (done r) eq lt further =
          let sizes = read_entry-whole fl entry r eq in
          behind_row-Ends (r.0) (scan_from fl fuel clean (r.1)) (sizes.0)
            (further (r.1) (omega (arith, sizes)))

      on_key :
          (o : Reading Bytes)
          → read_until vector_key 0 text ≡ o
          → ((rest : Bytes) → length rest < fuel → Ends (scan_from fl fuel clean rest))
          → Ends (elim o [
            | failed e ↦ if clean then counted [] else stopped [] e
            | done entry ↦ elim (read_entry fl entry) [
              | failed e ↦ stopped [] e
              | done r ↦ behind_row r.0 (scan_from fl fuel clean r.1)
            ]
          ])
      on_key (failed e) eq further =
          elim clean as (λ c. Ends (if c then counted [] else stopped [] e)) [
            | true ↦ tt
            | false ↦ tt
          ]
      on_key (done entry) eq further =
          on_entry entry (read_entry fl entry) refl (read_until-shorter vector_key text entry 0 eq)
            further

  scan-Ends : (clean : Bool) (text : Bytes) → Ends (scan fl clean text)
  unfolding scan
  scan-Ends clean text = scan_from-Ends (suc (length text)) clean text (omega arith)

-- A dataset as the code relies on it: a row of grid values and a label of 0 or 1 for each count.
pub record IsDataset (ds : Dataset) : Type 0 where
  pub vectors : length ds.vectors ≡ ds.count * 14
  pub labels : length ds.labels ≡ ds.count
  pub fraud_or_legit : All (λ l. l ≤ 1) ds.labels
  pub quantized : QuantizedRows ds

module _ (fl : DecimalOps) (grid : Float64) where
  abbrev pub dataset_of : List Row → Dataset
  dataset_of rows = record {
    vectors = vectors_of_rows fl grid rows;
    labels = labels_of_rows fl grid rows;
    count = length rows;
  }

  -- The second pass finds the rows of the first.
  pub fill_same :
      (rows : List Row) → fill fl grid (length rows) (counted rows) ≡ loaded (dataset_of rows)
  unfolding fill
  fill_same rows =
      let fits = le→ltb (length rows) (length rows) (omega arith) in
      let same = (==_iff (length rows) (length rows)).1 refl in rw (fill, fits, same) refl

  -- What the two passes over one file come to.
  abbrev pub LoadsTo : Bool → Bytes → Type 0
  LoadsTo clean text =
      ((rows : List Row) × (scan fl clean text ≡ counted rows)
        × (ds : Dataset) × (load_passes fl grid clean text clean text ≡ loaded ds)
        × (ds.count ≡ length rows)
        × IsDataset ds)
      ⊎ ((rows : List Row) × (e : Failure) × (scan fl clean text ≡ stopped rows e)
          × (load_passes fl grid clean text clean text ≡ not_loaded))

module _ (fl : DecimalOps) (grid : Float64)
    (within : (v : ℕ)
      → grid.not_above_zero v ≡ false
      → grid.reaches_one v ≡ false
      → grid.to_grid v ≤ 10000) where
  length-map : (xs : List ℕ) → length (map (quantize grid) xs) ≡ length xs
  length-map [] = refl
  length-map (x ∷ xs) = ap suc (length-map xs)

  length-vectors_of_rows :
      (rows : List Row)
      → All (λ r. length r.vec ≡ 14) rows
      → length (vectors_of_rows fl grid rows) ≡ length rows * 14
  unfolding vectors_of_rows
  length-vectors_of_rows [] h = omega arith
  length-vectors_of_rows (r ∷ rows) h = omega (
    arith,
    length-append (map (quantize grid) r.vec) (vectors_of_rows fl grid rows),
    length-map r.vec,
    h.0,
    length-vectors_of_rows rows h.1,
  )

  map-InGrid : (xs : List ℕ) → All InGrid (map (quantize grid) xs)
  map-InGrid [] = tt
  map-InGrid (x ∷ xs) = (quantize-InGrid grid within x, map-InGrid xs)

  vectors_of_rows-InGrid : (rows : List Row) → All InGrid (vectors_of_rows fl grid rows)
  unfolding vectors_of_rows
  vectors_of_rows-InGrid [] = tt
  vectors_of_rows-InGrid (r ∷ rows) =
      All-append InGrid (map (quantize grid) r.vec) (vectors_of_rows fl grid rows)
        (map-InGrid r.vec) (vectors_of_rows-InGrid rows)

  labels_of_rows_sound :
      (rows : List Row)
      → (length (labels_of_rows fl grid rows) ≡ length rows)
        × All (λ l. l ≤ 1) (labels_of_rows fl grid rows)
  unfolding labels_of_rows
  labels_of_rows_sound [] = (refl, tt)
  labels_of_rows_sound (r ∷ rows) =
      let rest = labels_of_rows_sound rows in
      (
        ap suc rest.0,
        (
          elim (Bool-cases r.is_fraud) [ inl e ↦ rw e (omega arith) | inr e ↦ rw e (omega arith) ],
          rest.1,
        ),
      )

  dataset_of-IsDataset :
      (rows : List Row) → All (λ r. length r.vec ≡ 14) rows → IsDataset (dataset_of fl grid rows)
  dataset_of-IsDataset rows h = record {
    vectors = length-vectors_of_rows rows h;
    labels = (labels_of_rows_sound rows).0;
    fraud_or_legit = (labels_of_rows_sound rows).1;
    quantized = λ i.
        All-get_or_default InGrid (vectors_of_rows fl grid rows) i (pos 0)
          (omega arith, omega arith) (vectors_of_rows-InGrid rows);
  }

  pub load_passes-LoadsTo : (clean : Bool) (text : Bytes) → LoadsTo fl grid clean text
  unfolding load_passes
  load_passes-LoadsTo clean text = on_scan (scan fl clean text) refl (scan-Ends fl clean text)
    where
      on_scan : (sc : Scanned) → scan fl clean text ≡ sc → Ends sc → LoadsTo fl grid clean text
      on_scan (counted rows) e h = inl (
        rows,
        e,
        dataset_of fl grid rows,
        rw (load_passes, e) (rw e (fill_same fl grid rows)),
        refl,
        dataset_of-IsDataset rows h,
      )
      on_scan (stopped rows f) e h = inr (rows, f, e, rw (load_passes, e) refl)
      on_scan unfinished e h = absurd h
