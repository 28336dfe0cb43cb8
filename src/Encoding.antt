-- ===== src/Encoding.antt =====
-- The byte encodings: EncodingWriter of lib/Bytecode/Writer/BytecodeWriter.cpp and EncodingReader
-- of lib/Bytecode/Reader/BytecodeReader.cpp. A byte is a number below 256.
pub mod Writer
pub mod Reader
pub mod VarInt
pub mod Fixed
pub mod Align
