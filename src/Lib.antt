-- ===== src/Lib.antt =====
-- Native Pascal 1981: the C parts of a compiler for the 1981 IBM Pascal dialect.
--
-- The repository has two C programs. bootstrap/ is pasboot, a translator from a subset of the
-- dialect to ISO C that builds the first generation of the compiler: lex.c makes tokens of a
-- file and of the files that it includes, parse.c a tree, sem.c resolves names, types and
-- constants for it, and emit.c writes C. runtime/ is the library that compiled programs are
-- linked with; each of its files serves a few predeclared routines of the language and is called
-- by the code that the compiler makes. The two do not call each other.
--
--   Bootstrap/Chars, Token   bootstrap/pasboot.h, <ctype.h>: characters, locations, tokens, and
--                            the errors of lex.c as values
--   Bootstrap/Lexer/Number   bootstrap/lex.c, lex_number and digit_value
--   Bootstrap/Lexer/Literal  bootstrap/lex.c, lex_string
--   Bootstrap/Lexer/Comment  bootstrap/lex.c, skip_comment and metacommand
--   Bootstrap/Lexer/Step     bootstrap/lex.c, one round of the loop of lex_one
--   Bootstrap/Lexer/File     bootstrap/lex.c, lex_one and lex_file, with $INCLUDE
--   Bootstrap/Scopes         bootstrap/sem.c, hash, scope_push, scope_pop, find_in, lookup,
--                            define
--   Bootstrap/Ast, Types     bootstrap/pasboot.h, expressions, types and symbols
--   Bootstrap/Words, Tree    bootstrap/parse.c, its words; bootstrap/pasboot.h, types,
--                            statements and declarations
--   Bootstrap/Parser         bootstrap/parse.c: the position, errors and single tokens
--   Bootstrap/Parser/Expressions, TypeExprs, Statements  bootstrap/parse.c, expr and bool_expr,
--                            type_expr, stmt_list
--   Bootstrap/Parser/Sections, Routines, Compilands  bootstrap/parse.c, section, routine_decl,
--                            parse_compiland
--   Bootstrap/Parser/Print   the text of an expression, a description that the parser is
--                            compared with
--   Bootstrap/Constants      bootstrap/sem.c, int_type_for, const_int, const_eval,
--                            const_int_value
--   Bootstrap/Resolve        bootstrap/sem.c, lstring_of, array_of, resolve_type,
--                            resolve_pending_pointers, same_type
--   Runtime/OverflowOk       runtime/overflow_ok.c
--   Runtime/Positn           runtime/positn.c
--   Runtime/Scan             runtime/scaneq.c
--   Runtime/Decode           runtime/encode_decode.c, decode_trim and the pas_decode routines
--   Runtime/Encode           runtime/encode_decode.c, pas_encode_fmt
--   Runtime/Aggregates       runtime/initck.c, the states of the leaves of aggregates
--   Runtime/Moves            runtime/movel.c, mover.c, movesl.c, movesr.c, fillc.c, fillsc.c
--   Runtime/SuperArray       runtime/super_descriptor.c
--   Runtime/HeapState        runtime/initck_heap.c: slot_of, find and the scans of reserve
--   Runtime/HeapState/Operations  runtime/initck_heap.c: reserve, pas_initck_heap_new, _at,
--                            _part_at, _dispose and _release
--   Prelude                  integers, memory and lists that the parts share
--
-- A position in a text is the list of bytes from there on, so that moving it is taking bytes
-- from the front. Errors that end the program (fatal, unsupported, abort) are values with their
-- message as a constructor. Machine integers are natural numbers or integers with their
-- wrap-around written out. A file of the lexer has a round for each byte and one for its end,
-- and each round takes a byte; a nesting of 17 included files is what the code admits, and is
-- the bound of the recursion. A call of the parser takes one unit of fuel; sixteen for each
-- token and sixteen for the end are enough, since no chain of calls that passes no token is as
-- long. The tokens from the position on are a list that the T_EOF token closes. A scan of the
-- heap table has a round for each slot, which is enough in a table with an empty slot, and the
-- growth of the table doubles at most as often as its bound in rounds. strtod, vsnprintf, the
-- file system, malloc and the arithmetic of double are parameters.
--
-- Names are texts without a 0, as the lexer makes them. Types carry an id where the code tells
-- them apart by address. Not modelled: the growth of buffers, the C spelling of types and the
-- emitter of pasboot, the files, sockets, processes, devices and JSON of the runtime, and the
-- compiler stages themselves, which are written in Pascal.
pub mod Bootstrap
pub mod Prelude
pub mod Runtime
