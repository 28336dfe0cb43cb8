-- ===== src/Lib.antt =====
-- The bytecode of CUDA Tile IR: its encodings, its sections, and the files that they make.
--
-- The program. lib/Bytecode/Writer/BytecodeWriter.cpp writes an MLIR module as a file: a header with
-- a magic number and a version, and then sections, each with a number, a length, an optional
-- alignment and a payload, and an end marker. While it writes the operations it enters strings, types,
-- constants and debug info in managers, whose sections come after, so that the payloads refer to one
-- another by index. lib/Bytecode/Reader/BytecodeReader.cpp takes the file apart again: it collects the
-- payloads, and then parses the string, producer, type, constant, global, debug and function sections
-- in an order in which each needs only what came before it. include/cuda_tile/Bytecode/Common/Version.h
-- and lib/Bytecode/Common/Version.cpp say which versions there are.
--
-- The modules.
--   Base: Boolean tests, lists over native numbers, and Outcome, which is LogicalResult with the first
--     diagnostic as an Error; padding is the amount that alignTo and skipPadding compute.
--   Version: BytecodeVersion, its comparisons, and fromVersion as tools/cuda-tile-tblgen/BytecodeGen.cpp
--     emits it.
--   Version.Opcodes: the map from versions to opcodes, and isOpcodeAvailableInVersion.
--   Encoding.Writer: EncodingWriter; the stream is the list of the bytes written.
--   Encoding.Reader: EncodingReader; Cursor is its offset and the bytes from there on, and StringTable
--     its view of the strings.
--   Section.Header: writeHeader, parseHeader, writeSectionHeader and parseSectionHeader.
--   Section.Container: the loop of readBytecode, getBytecodeSize, isTileIRBytecode, and a file as the
--     list of its sections.
--   Table: the count, the padded table of offsets and the data that the string, type, constant and
--     debug sections share in the writer.
--   MapVector: llvm::MapVector as the managers use it.
--   Strings: StringManager and parseStringSection.
--   Constants: ConstantManager and parseConstantSection.
--   Types: writeTypeSection, parseTypeSection, the slicing of LazyTypeTable::getType, and function
--     types.
--   Debug: writeDebugInfoSection, parseDebugSection, and the lookups of DebugInfoReader.
--   Global: writeGlobalSection and parseGlobalSection; Global.Producer: the producer section.
--   FunctionTable: writeFunctionTableSection and parseFunctionTableSection.
--   ApInt: writeAPInt and parseAPInt.
--   Body.Schema: what the generators of tools/cuda-tile-tblgen know of an operation, and operations as
--     trees of regions and blocks.
--   Body.Attributes: writeOpAttribute and parseOpAttribute.
--   Body.Flags, Body.Results, Body.AttributeList, Body.Operands: what BytecodeGen.cpp and
--     BytecodeReaderGen.cpp emit for the flags, the results, the attributes and the operands of an
--     operation, run on its description.
--   Body.Write: writeFunctionBody, writeOperation, writeRegion and writeBlock.
--   Body.Read: parseFunctionBody, parseOperation, parseRegion and parseBlock.
--   Body.RoundTrip: bodies that are written and read back. Body.Sound: bodies that are read.
--   MinVersion: getMinBytecodeVersion of lib/Bytecode/Analysis/MinVersionAnalyzer.cpp with the checkers
--     that BytecodeGen.cpp emits; the versions of the types are a parameter.
--   Module: the order in which readBytecode parses the sections, and the tables that it gets.
--   Tests: runs on concrete inputs.
--
-- Conventions. A byte is a number; where a value is 64 bits wide, `% 2 ^ 64` is written where the code
-- can pass it, and bit operations are arithmetic on the bits that are known to be set. Offsets and
-- pointers into a payload are the lists of the bytes behind them, and a pointer at the end of a payload
-- is null, as getCurrentPtr says. The host is little-endian.
--
-- In a body, an SSA value is a number that stands for its identity: the reader creates values in the
-- order 0, 1, 2 and so on, and valueIndexMap and valueIndexList hold these numbers. A type is its index
-- in the type section, and a location its index in the debug section. The locations of a body are those
-- that addDebugInfo appends for its function; for a function with a reserved index, 0, it appends none,
-- and the iterator of the reader gives the unknown location. `Pools` holds what the body code
-- asks of the tables: which indices have a type, the strings, the number of constants, whether a value
-- has users, and the index of the function in the debug section. A UnitAttr has no bytes; an operation without AttrSizedOperandSegments has one group
-- of operands.
--
-- Fuel. parseOperation calls itself through the regions; its fuel is the depth of the nesting, and a
-- body that was written is read back with the depth that it has. The loop of parseFunctionBody takes a
-- byte at least in each round. readBytecode and getBytecodeSize loop until the end marker. Each round
-- takes at least one byte, so the loops get the length of the input as fuel, which is enough on every
-- input.
--
-- Parameters. llvm::isPowerOf2_64 is a function is_power_of_2. The serialization of attributes
-- (serializeAttribute, writeSelfContainedAttribute) and the registration of types go through code that
-- the build generates; where a section needs them they are functions that the definitions take, and
-- hints_read says of the hints' parser that it reads what was written.
--
-- Not modelled: dense constants without an expected type, which only globals have, variadic results
-- that came after their operation, float attributes, self-contained attributes and generated attributes of operations,
-- the assembly of a module of its functions, the construction of MLIR objects, the dialect with its
-- verifiers and transforms, the bindings and the tools.
pub mod Base
pub mod Version
pub mod Encoding
pub mod Section
pub mod Table
pub mod MapVector
pub mod Strings
pub mod Constants
pub mod Types
pub mod Debug
pub mod Global
pub mod FunctionTable
pub mod ApInt
pub mod Tests
pub mod Module
pub mod Body
pub mod MinVersion
