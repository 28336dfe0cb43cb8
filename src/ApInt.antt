-- ===== src/ApInt.antt =====
-- `writeAPInt` of lib/Bytecode/Writer/BytecodeWriter.cpp and `parseAPInt` of
-- lib/Bytecode/Reader/BytecodeReader.cpp. An `APInt` of LLVM is its width and its 64-bit words, lowest
-- first; up to 64 bits it has one word.
pub mod Words
pub mod RoundTrip
use cuda_tile.Base.{
  ℕ, zero, suc, ◌+◌, ◌-◌, ◌*◌, ◌/◌, ◌%◌, ◌^◌, Bool, true, false, not, ◌||◌, List, [], ◌∷◌, ◌++◌,
  length, leb, ltb, ◌==◌, if◌then◌else◌, replicate, take,
}
use cuda_tile.Base.{Outcome, ok, err, ◌>>=◌, ◌>>◌, guard, or_err, silent, not_fit, word_count}
use cuda_tile.Encoding.Writer.{Writer, write_byte, write_var_int, write_signed_var_int}
use cuda_tile.Encoding.Reader.{Cursor, read_var_int, read_signed_var_int, read_le}

pub record ApInt : Type 0 where
  pub bit_width : ℕ
  pub words : List ℕ

-- `getLimitedValue()` of a value of one word.
unfoldable pub low_word : List ℕ → ℕ
low_word [] = 0
low_word (w ∷ words) = w

-- Whether a word is not zero.
unfoldable pub any_set : List ℕ → Bool
any_set [] = false
any_set (w ∷ words) = not (w == 0) || any_set words

-- `getActiveWords()`: the words up to the highest one that is not zero, and at least one.
unfoldable pub active_words : List ℕ → ℕ
active_words [] = 1
active_words (w ∷ words) = let rest = active_words words in if any_set words then suc rest else 1

-- The loop over the active words.
unfoldable pub write_words : List ℕ → Writer → Writer
write_words [] w = w
write_words (word ∷ words) w = write_words words (write_signed_var_int word w)

unfoldable pub write_ap_int : ApInt → Writer → Writer
write_ap_int value w =
    if leb value.bit_width 8
    then write_byte (low_word value.words % 256) w
    else if leb value.bit_width 64
    then write_signed_var_int (low_word value.words) w
    else write_words (take (active_words value.words) value.words)
        (write_var_int (active_words value.words) w)

-- `llvm::isUIntN(bitWidth, value)`
unfoldable pub is_uint_n : ℕ → ℕ → Bool
is_uint_n bit_width value = leb 64 bit_width || ltb value (2 ^ bit_width)

unfoldable pub read_words : ℕ → Cursor → Outcome (List ℕ × Cursor)
read_words zero c = ok ([], c)
read_words (suc count) c = do
  (word, c₁) ← or_err silent (read_signed_var_int c)
  (words, c₂) ← read_words count c₁
  ok (word ∷ words, c₂)

-- `APInt(bitWidth, words)`: words that are missing are zero, and the unused bits are cleared.
unfoldable pub ap_int : ℕ → List ℕ → ApInt
ap_int bit_width words = record {
  bit_width = bit_width;
  words = words ++ replicate ((bit_width + 63) / 64 - length words) 0;
}

-- A value of one word, that must fit.
unfoldable pub fitting : ℕ → ℕ × Cursor → Outcome (ApInt × Cursor)
fitting bit_width (value, c) =
    guard (is_uint_n bit_width value) not_fit >> ok (ap_int bit_width (value ∷ []), c)

-- The words of a larger value; `bitWidth + 63` is a 32-bit sum.
unfoldable pub parse_words : ℕ → ℕ × Cursor → Outcome (ApInt × Cursor)
parse_words bit_width (num_active_words, c) =
    guard (leb num_active_words ((bit_width + 63) % 2 ^ 32 / 64)) word_count
    >> (guard (not (num_active_words == 0)) word_count
        >> (read_words num_active_words c >>= λ (words, c'). ok (ap_int bit_width words, c')))

unfoldable pub parse_ap_int : ℕ → Cursor → Outcome (ApInt × Cursor)
parse_ap_int bit_width c =
    if leb bit_width 8
    then or_err silent (read_le 1 c) >>= fitting bit_width
    else if leb bit_width 64
    then or_err silent (read_signed_var_int c) >>= fitting bit_width
    else or_err silent (read_var_int c) >>= parse_words bit_width
