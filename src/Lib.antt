-- ===== src/Lib.antt =====
-- u-lang: the front end of a programming language. A source (include/u-lang/Basic/Source.hpp,
-- lib/Basic/Source.cpp) decodes UTF-8 text into characters and counts lines and columns; the lexer
-- (include/u-lang/Lex/Lexer.hpp, lib/Lex/Lexer.cpp) reads them with one character of lookahead,
-- records each in the source manager (include/u-lang/Basic/SourceManager.hpp) and makes tokens,
-- with the help of the tables of punctuators and of identifiers; what it has to complain of goes
-- to the diagnostic engine (include/u-lang/Basic/Diagnostic.hpp, lib/Basic/Diagnostic.cpp). The
-- text of a source comes through the source manager's file manager
-- (include/u-lang/Basic/FileManager.hpp) from a virtual file system
-- (include/u-lang/Basic/VirtualFileSystem.hpp, lib/Basic/VirtualFileSystem.cpp), which puts the
-- files of the same path in several file systems one behind the other.
--
-- - Prelude, Prelude/Tests, Prelude/Lists, Prelude/Ctype, Prelude/Table: Boolean tests and
--   unsigned arithmetic of 32 and 64 bits, lists over the native numbers, the functions of
--   <cctype> that are used, and std::map as an association list.
-- - Outcome: what a call ends with: a value, an exception or failed assertion, or no end within
--   the fuel.
-- - Basic/SourceLocation, Basic/Stream, Basic/Source: positions, the stream buffer below a source,
--   and `Get`. The three classes of sources have one and the same `Get`, which is `Source.get`
--   here. Basic/Source/Laws has its theorems.
-- - Basic/SourceManager: `AddCharacter`, `getLine`, `getOrInsertFileInfo`. A reference into the
--   table is the entry, and a write through it is `store_file_info`. Theorems: its Laws and Table.
-- - Basic/Truncation: the truncations of integers of include/u-lang/u.hpp.
-- - Basic/TokenKinds, Basic/PunctuatorTable, Basic/IdentifierTable: the kinds of tokens, and the
--   two tables with their theorems.
-- - Basic/DiagnosticIds, Basic/Diagnostic: the diagnostics, the engine, the builder and the
--   consumer. Theorems: Basic/Diagnostic/Laws.
-- - Basic/Format: `FormatDiagnostic`. Basic/Format/Template has templates, which print to formats,
--   and what they mean; Basic/Format/Select is about the options of a `%select`,
--   Basic/Format/Ranges and Basic/Format/Termination about its end.
-- - Lexer/Token, Lexer/State, Lexer/Number, Lexer/Text, Lexer/Lex: tokens; the state of the lexer
--   with `NextChar`, `PeekChar`, `CurChar` and `GetChar`; `NumberToken`; `StringToken`; `Lex`. A
--   method is a function from the lexer to an outcome with the lexer as it leaves it.
--   Lexer/State/Ahead gives the characters ahead of a lexer as a list, in which the theorems of
--   Lexer/Lex are stated; Lexer/State/Recording is about `GetChar`, Lexer/State/Lookahead about
--   `PeekChar`, Lexer/Number/Digits, Lexer/Number/Fractions and Lexer/Number/Conversion about
--   numbers, Lexer/Number/Widths and Lexer/Number/Values about the bits that are estimated for an
--   integer and what its text stands for, and Lexer/Text/Printed and Lexer/Text/RoundTrip about strings against a printer.
-- - Lexer/State/Kept, Lexer/Number/Kept, Lexer/Text/Kept, Lexer/Lex/Kept: a property of the lexer
--   that `GetChar` keeps, and that does not read the fields of the lookahead, is kept by every
--   method, by a lemma for each form of statement. Lexer/Lex/Recorded takes it for what the source
--   manager holds; Basic/SourceManager/Split has the lines of a text.
-- - Basic/Diagnostic/Halting, Lexer/State/Halting, Lexer/Number/Halting, Lexer/Text/Halting,
--   Lexer/Lex/Halting: the methods and their loops come to an end, and leave no more characters
--   ahead than there were, by a lemma for each form of statement. Lexer/Lex/Comments tells open
--   comments from closed ones, and Lexer/Lex/Termination is about `Lex`.
-- - Lexer/Program: texts of many items, how they are written, and the loop of a client over `Lex`.
--   Lexer/Program/Spaces, Integers, Reals, Items and Kinds are about one item and the spaces
--   before it, Lexer/Program/RoundTrip about the tokens of all items, and Lexer/Program/Recorded
--   about a new lexer, its tokens and the lines that are recorded.
-- - Vfs/Status, Vfs/FileSystem: the status of a file, and the abstract classes of the virtual file
--   system, each as a record of its virtual functions over one state of all file systems.
--   Vfs/Status/Names is about names under a mount point, Vfs/Status/Ids about the ids.
-- - Vfs/Memory, Vfs/Memory/System: the nodes of an in-memory file system and its operations.
--   Vfs/Memory/Places gives its tree as a map from paths to texts; Vfs/Memory/Files is about the
--   loop of `addFile` in it, Vfs/Memory/Refinement about what can be opened after a call, and
--   Vfs/Memory/Replay after a sequence of them; Vfs/Memory/Invariant is about the tree itself.
-- - Vfs/Overlay: `OverlayFileSystem`; against the union of its layers, Vfs/Overlay/Shadow.
--   Vfs/Overlay/Directory: the iterator over a directory in all layers; the steps from one layer
--   to the next, Vfs/Overlay/Directory/Listings, and what a client's loop is shown,
--   Vfs/Overlay/Directory/Union.
-- - Vfs/Concatenated: `ConcatenatedOverlayFileSystem`; the file that it makes of those of its
--   layers, Vfs/Concatenated/Contents.
-- - Vfs/Real, Vfs/Recursive: the file system of the operating system under a mount point, and the
--   iterator that goes into directories, whose order is in Vfs/Recursive/Preorder.
-- - Vfs/FileManager: `FileManager` and `SourceManager::getFile`, which makes a source of a file;
--   its text, Vfs/FileManager/Sources, and the layers, Vfs/FileManager/Layers.
-- - Ascii, Tests: a decoder of ASCII texts in the place of the library, and runs of the model.
--
-- The functions of the UTF8-CPP library are the parameter `Utf8`, with their documented behaviour
-- as `IsLawful`; the numbers of LLVM are the parameter `Numerals`, in which the constructor of an
-- integer from digits need not return, with what it promises as `IsExact`, and what its streams
-- print is the parameter `Printing`. The loop of `Get` reads a byte in each round, and so has fuel for one
-- round more than there are bytes. The loops of the lexer take their fuel as an argument, since
-- one of them does not end on every text; each theorem says how much is enough. Each round of the
-- formatting, the nested ones included, shortens the range, and so its fuel is one more than the
-- length of the format.
--
-- Of the virtual file system, LLVM's functions on paths are the parameter `Paths`, its calls of the
-- operating system the parameter `Os`, and the buffers that it makes the argument
-- `new_mem_buffer`. A directory iterator is what its increments will show, so a directory does not
-- change while it is iterated over. The loop of the overlay's iterator passes an entry in each
-- round, and so more fuel than there are entries is enough.
--
-- Not modelled: the nodes of the syntax tree, whose lists nothing fills; the macros of u.hpp; what
-- is written to the log.
pub mod Prelude
pub mod Outcome
pub mod Basic
pub mod Lexer
pub mod Vfs
pub mod Ascii
pub mod Tests
