-- ===== src/Lib.antt =====
-- A model of mydbg, a graphical debugger on top of LLDB, and what is proved of it.
--
-- The program is one process. The engine (src/backend/lldb) drives LLDB on a thread of its own and
-- publishes snapshots of the debugged process. The application (src/app) draws windows from a
-- snapshot and from the state of the user interface, changes that state, and calls the engine. A
-- conditional breakpoint is compiled once (src/backend/conditions) and evaluated at each stop.
--
-- Files:
--   Base: bytes as numbers below 256, lists measured by the native numbers, <cctype> in the "C"
--     locale, `std::from_chars`, shifts and `|` at 64 bits, the value of bytes in either order.
--   Condition: src/backend/conditions/BreakpointCondition.cpp. Syntax has the tree, Scanner the
--     class `Parser` with its position, depth and first error, Literals the numbers, registers and
--     strings, Pattern `decode_pattern`, Parser the recursive descent, Compile `compile`, Evaluate
--     `evaluate`. WellFormed, Keeps and Sound hold the invariants, Evaluate/Meaning the meaning of a
--     tree, Compiled what `compile` promises. A function that changes the parser returns the parser.
--   Target: the parts of `SessionSnapshot` of src/backend/DebuggerTypes.h that are read, and the
--     lookups of regions and modules.
--   Navigation: the navigation of src/app/AppActions.cpp and src/app/NavigationState.h. The array of
--     the history is a list of 256 entries with a size and an index. Refreshed, Traverse and Traversal
--     are about going back and forth in it.
--   Memory: src/app/MemoryInspection.cpp (Read), src/app/MemoryData.cpp (Format), the texts of bytes
--     of src/app/AppActions.cpp (Hex), src/app/MemoryController.cpp with the changes of the selection
--     in src/app/MemoryPanels.cpp (Selection).
--   Actions: the debug actions of src/app/AppActions.cpp.
--   Scan: the values of src/backend/lldb/LldbEngineScanning.cpp.
--   Arguments: the command texts of src/backend/lldb/LldbEngineUtilities.cpp.
--   Utf8: the UTF-8 of src/localization/Localization.cpp.
--   Session: src/backend/session/SessionStore.cpp. Data and Json have the data and Rizin's JSON values,
--     Decode and Encode the document, Disk the calls of `write_disk`, Mutations what changes a
--     session, Store the state of the store, Operations and Clear its functions. Writing, Parts,
--     Analysis, Comments and RoundTrip are about the round trip of the document, WellFormed and
--     Reading about what is read, Atomic about what is left on the disk, Thrown, Saved and ReadBack
--     about calls that throw or return. Distinct, AsMap and Kept are about the mutations. Preflight is
--     the check of a text before it is parsed, which Shorter and Ends are about. Reading has `decode`.
--   Image: the ELF files of src/backend/lldb/LldbEngineScanning.cpp. The size and the contents that the
--     system gives are parameters. Strings has the texts of a file before they are sorted, Segments is
--     about the segments, Runs and Complete are about the texts.
--   Graph: the address next to the cursor, of src/app/DisassemblyGraphLayout.cpp.
--   Tests: the theorems at concrete inputs, and runs.
--
-- Numbers are natural numbers, with `% 2 ^ 64` where the source wraps. Calls of the engine are
-- recorded as values. An error text is the key of its message. The callbacks of `EvaluationContext`
-- are parameters: a register read gives a number or an error, a memory read a function from offsets
-- to bytes or an error. `max_size` of a string is a parameter. `char` is
-- signed, as on x86-64.
--
-- Rizin's JSON parser and printer are parameters. Where a theorem needs that the parser reads back
-- what was printed, of encoded sessions and where the check before the parser accepts it, this is one
-- of its hypotheses.
--
-- Fuel: the parser of conditions takes the length of the source and one; every call that recurses
-- with less fuel has consumed a byte, so `compile` never runs out. `parse_hex_byte_text` takes
-- the length of the text, since each round consumes a token; `to_chars` the number and one;
-- `address_text` 16, the digits of 64 bits; the texts of a file its length; the check of a JSON text
-- twice its length and one, and for each string in it the length of the rest and one; a check of
-- UTF-8 the length of the text. The calls of `write` are a list, behind which one call writes the
-- rest.
--
-- Not modelled: the engine's threads and LLDB, the decompiler, Python, plugins, drawing, the text of
-- JSON, the system calls themselves, and floating point scan values beyond their width.
pub mod Base
pub mod Condition
pub mod Target
pub mod Navigation
pub mod Scan
pub mod Memory
pub mod Actions
mod Tests
pub mod Arguments
pub mod Utf8
pub mod Session
pub mod Image
pub mod Graph
