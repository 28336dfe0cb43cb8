-- ===== src/Table/Layout.antt =====
-- What a table's buffer holds, and where each entry lies.
use cuda_tile.Base.{
  ℕ, zero, suc, ◌+◌, ◌*◌, ◌%◌, ◌^◌, ◌≤◌, ◌<◌, ◌≡◌, refl, sym, ap, ◌∙◌, arith, max, List, [], ◌∷◌,
  ◌++◌, length, take, drop, concat, replicate, take-length, drop-length, length-append,
  length-replicate, append_assoc, append-nil, All,
}
use cuda_tile.Encoding.Writer.{
  Writer, new_writer, write, write_le, write_var_int, align_to, le_bytes, le_array, var_int,
}
use cuda_tile.Encoding.Fixed.{length-le_bytes, length-le_array, le_value-le_bytes}
use cuda_tile.Encoding.Align.{pad, align_to-stream, align_to-required}
use native.Mathlib.Nat.{mod-lt}
use cuda_tile.Table.{write_table_at, reserve, write_entries, copy_n, write_table, le_groups}

-- The offsets that are recorded, from a first one on.
abbrev pub offsets_from : ℕ → ℕ → List (List ℕ) → List ℕ
offsets_from size running [] = []
offsets_from size running (entry ∷ entries) =
    running ∷ offsets_from size ((running + length entry) % 256 ^ size) entries

pub length-offsets_from :
    (size running : ℕ) (entries : List (List ℕ))
    → length (offsets_from size running entries) ≡ length entries
length-offsets_from size running [] = refl
length-offsets_from size running (e ∷ es) =
    ap suc (length-offsets_from size ((running + length e) % 256 ^ size) es)

write_entries-eq :
    (size running : ℕ) (offsets : List ℕ) (entries : List (List ℕ)) (w : Writer)
    → write_entries size running offsets entries w
      ≡ (offsets ++ offsets_from size running entries, write (concat entries) w)
unfolding write_entries
write_entries-eq size running offsets [] w = rw (append-nil offsets, append-nil w.stream)
write_entries-eq size running offsets (e ∷ es) w =
    write_entries-eq size ((running + length e) % 256 ^ size) (offsets ++ running ∷ []) es
      (write e w)
    ∙ rw (append_assoc offsets (running ∷ []) _, append_assoc w.stream e (concat es))

reserve-eq : (size n : ℕ) (w : Writer) → reserve size n w ≡ write (le_array size (replicate n 0)) w
unfolding reserve le_array
reserve-eq size zero w = rw (append-nil w.stream)
reserve-eq size (suc n) w =
    reserve-eq size n (write_le size 0 w) ∙ rw (append_assoc w.stream (le_bytes size 0) _)

copy_n-middle :
    (source front old back : List ℕ)
    → length source ≡ length old
    → copy_n source (length front) (front ++ (old ++ back)) ≡ front ++ (source ++ back)
unfolding copy_n
copy_n-middle source front old back e =
    let at_old : drop (length front + length source) (front ++ (old ++ back)) ≡ back =
      rw (e, ← length-append front old, ← append_assoc front old back)
        (drop-length (front ++ old) back) in
    rw (take-length front (old ++ back), at_old)

pub le_groups-le_array :
    (size : ℕ) (vs rest : List ℕ)
    → All (λ v. v < 256 ^ size) vs
    → le_groups size (length vs) (le_array size vs ++ rest) ≡ vs
unfolding le_groups le_array
le_groups-le_array size [] rest h = refl
le_groups-le_array size (v ∷ vs) rest (hv, h) =
    let tail : List ℕ = le_array size vs ++ rest in
    let first : take size (le_bytes size v ++ tail) ≡ le_bytes size v =
      rw (length-le_bytes size v) at (take-length (le_bytes size v) tail) in
    let others : drop size (le_bytes size v ++ tail) ≡ tail =
      rw (length-le_bytes size v) at (drop-length (le_bytes size v) tail) in
    rw (
      append_assoc (le_bytes size v),
      first,
      others,
      le_value-le_bytes size v hv,
      le_groups-le_array size vs rest h,
    )

pub offsets_from-lt :
    (size running : ℕ) (entries : List (List ℕ))
    → running < 256 ^ size
    → 0 < 256 ^ size
    → All (λ v. v < 256 ^ size) (offsets_from size running entries)
offsets_from-lt size running [] h pos = tt
offsets_from-lt size running (e ∷ es) h pos = (
  h,
  offsets_from-lt size ((running + length e) % 256 ^ size) es (mod-lt (running + length e) pos) pos,
)

-- The count and the padding before the table, when `front` bytes come before them.
abbrev pub table_front : ℕ → ℕ → ℕ → List ℕ
table_front size n front = var_int n ++ pad (front + length (var_int n)) size

-- What is written: the count, padding up to the alignment, the offsets and the data.
pub write_table_at-stream :
    (size : ℕ) (entries : List (List ℕ)) (w : Writer)
    → 2 ≤ size
    → (write_table_at size entries w).stream
      ≡ w.stream
        ++ (table_front size (length entries) (length w.stream)
            ++ (le_array size (offsets_from size 0 entries) ++ concat entries))
unfolding write_table_at
write_table_at-stream size entries w h =
    let n : ℕ = length entries in
    let w₁ : Writer = write_var_int n w in
    let w₂ : Writer = align_to size w₁ in
    let zeros : List ℕ = le_array size (replicate n 0) in
    let offsets : List ℕ = offsets_from size 0 entries in
    let front : List ℕ = w.stream ++ table_front size n (length w.stream) in
    let same : length (le_array size offsets) ≡ length zeros = omega (
      arith,
      length-le_array size offsets,
      length-le_array size (replicate n 0),
      ap (λ (k : ℕ). size * k)
          (length-offsets_from size 0 entries ∙ sym (length-replicate {A = ℕ} n 0)),
    ) in
    let aligned : w₂.stream ≡ front =
      align_to-stream size w₁ h
      ∙ rw (length-append w.stream (var_int n), append_assoc w.stream (var_int n)) in
    rw (
      reserve-eq size n w₂,
      write_entries-eq size 0 [] entries (write zeros w₂),
      aligned,
      append_assoc front zeros (concat entries),
      copy_n-middle (le_array size offsets) front zeros (concat entries) same,
      append_assoc w.stream (table_front size n (length w.stream)),
    )

pub write_table_at-alignment :
    (size : ℕ) (entries : List (List ℕ)) (w : Writer)
    → 2 ≤ size
    → (write_table_at size entries w).required_alignment ≡ max w.required_alignment size
unfolding write_table_at
write_table_at-alignment size entries w h =
    let n : ℕ = length entries in
    let w₁ : Writer = write_var_int n w in
    let w₂ : Writer = align_to size w₁ in
    let zeros : List ℕ = le_array size (replicate n 0) in
    rw (
      write_table_at,
      reserve-eq size n w₂,
      write_entries-eq size 0 [] entries (write zeros w₂),
      align_to-required size w₁ h,
    )

-- The buffer of a section that is only a table.
pub write_table-stream :
    (size : ℕ) (entries : List (List ℕ))
    → 2 ≤ size
    → (write_table size entries).stream
      ≡ table_front size (length entries) 0
        ++ (le_array size (offsets_from size 0 entries) ++ concat entries)
unfolding write_table
write_table-stream size entries h = write_table_at-stream size entries (new_writer []) h

pub write_table-alignment :
    (size : ℕ) (entries : List (List ℕ))
    → 2 ≤ size
    → (write_table size entries).required_alignment ≡ size
unfolding write_table
write_table-alignment size entries h =
    write_table_at-alignment size entries (new_writer []) h ∙ omega arith
