-- ===== src/Section/Ids.antt =====
-- The section numbers of lib/Bytecode/BytecodeEnums.h, `enum : uint8_t` in namespace `Section`.
use cuda_tile.Base.{ℕ}

abbrev pub end_of_bytecode : ℕ
end_of_bytecode = 0

abbrev pub string : ℕ
string = 1

abbrev pub func : ℕ
func = 2

abbrev pub debug : ℕ
debug = 3

abbrev pub constant : ℕ
constant = 4

abbrev pub types : ℕ
types = 5

abbrev pub global : ℕ
global = 6

abbrev pub producer : ℕ
producer = 7

abbrev pub num_sections : ℕ
num_sections = 8
