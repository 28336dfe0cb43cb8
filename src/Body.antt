-- ===== src/Body.antt =====
-- Function bodies: the operations, blocks and regions that `FunctionTableWriter` of
-- lib/Bytecode/Writer/BytecodeWriter.cpp writes and `InstructionParser` of
-- lib/Bytecode/Reader/BytecodeReader.cpp reads, with the code that
-- tools/cuda-tile-tblgen/BytecodeGen.cpp and BytecodeReaderGen.cpp emit for each operation.
pub mod Schema
pub mod Attributes
pub mod AttributesTrip
pub mod Flags
pub mod Results
pub mod AttributeList
pub mod Operands
pub mod Write
pub mod Read
pub mod RoundTrip
pub mod Sound
