-- ===== src/Lib.antt =====
-- A model of parts of the Gemstone compiler, with the theorems on them: the semantic analysis (src/set),
-- the namespaced allocation (src/mem), the options and project files (src/cfg), the driver
-- (src/compiler.c), the reading of lines for the lexer (src/lex), the interface of the back ends
-- (src/codegen), the LLVM types (src/llvm), and what these need of the syntax trees (src/ast) and the
-- files (src/io).
--
-- The compiler reads a module, the parser builds a syntax tree (src/ast), `create_set` of
-- src/set/set.c turns the tree into a `Module` of types, variables and functions or reports errors,
-- and the back end (src/llvm) generates code from it. Set is about the middle part, Opt about what the
-- compiler is told to do, Mem about the allocator that the other parts share.
--
-- Ast.antt              src/ast/ast.h, ast.c: the kinds of nodes and the trees
-- Ast/Children.antt     src/ast/ast.c: the array of children of a node; Ast/Merge.antt the proof
-- Set/Types.antt        src/set/types.h: the data
-- Set/Scale.antt        the scales of composite types and the words of the syntax
-- Set/Monad.antt        the state: heap, static tables, diagnostics; how a routine ends
-- Set/TypeImpl.antt     `set_get_type_impl` and what it calls
-- Set/Compare.antt      `compareTypes`, `type_to_string`
-- Set/Scope.antt        `getParameter` to `fillTablesWithVars`
-- Set/Operands.antt, Arithmetic.antt, Logic.antt, Bitwise.antt, Access.antt, Calls.antt, Expression.antt
--                       `createTypeFromOperands` to `createExpression`, and `createfuncall`
-- Set/Declarations.antt, Statements.antt
--                       `createDecl`, `createDef`, `createStorageExpr` to `createStatement`
-- Set/Functions.antt, FunctionDefs.antt
--                       `compareParameter`, `addFunction`, `createParam` to `createFunction`
-- Set/Module.antt       `createDeclMember` to `create_set`
-- Set/Keeps.antt and below, Set/Operands/, Set/Scope/, Set/TypeImpl/, Set/Compare/, Set/Arithmetic/,
-- Set/Logic/, Set/Functions/, Set/Module/  the proofs
-- Set/Samples.antt, Set/Examples.antt, Set/Examples/Modules.antt  the tests
-- Mem/Blocks.antt, Namespace.antt, Cache.antt
--                       src/mem/cache.c: blocks, namespaces, the table of namespaces
-- Mem/Calls.antt        programs of calls to src/mem/cache.h, and what a caller has to see to
-- Mem/Counts.antt, Balance.antt, Tracked.antt, Leaks.antt, Programs.antt, Accounts.antt, DoubleFree.antt
--                       the proofs; Mem/Examples.antt the tests
-- Opt/Arguments.antt, Target.antt, Project.antt
--                       src/cfg/opt.c: the command line, the target from it, project files
-- Opt/Arguments/, Opt/Target/, Opt/Project/  the proofs; Opt/Examples.antt the tests
-- Io.antt               src/io/files.c: the stack of files, the statistics; Io/Totals.antt the proof
-- Driver/Imports.antt   src/compiler.c: the files that a module imports; Driver/Pending.antt, Ends.antt,
--                       Distinct.antt the proofs
-- Driver/Builds.antt    src/compiler.c: targets, projects, `run_compiler`; Driver/Statuses.antt,
--                       Nothing.antt the proofs
-- Codegen.antt          src/codegen/backend.c: the functions of the back end that is set
-- Lex.antt              src/lex/util.c: the lines, the place of a token, escape sequences;
--                       Lex/Reading.antt the proof, Lex/Examples.antt the tests
-- Llvm/Types.antt       src/llvm/llvm-ir/types.c: LLVM types and default values; Llvm/Equal.antt,
--                       Accepted.antt, Defaults.antt the proofs, Llvm/Examples.antt the tests
-- Ast/Examples.antt, Io/Examples.antt, Driver/Examples.antt  the tests
--
-- How the model corresponds to the code:
-- - A pointer to a `Type`, a `Variable` or a `Function` is an index into a list of the state; address 0
--   is `NULL` and cell 1 the constant `ShortShortUnsingedIntType`. Allocation appends and succeeds. A
--   write changes the cell, so aliasing is that of the code. What an allocated `Type` that was never
--   written holds is the field `garbage`.
-- - The value of a node of the tree is a text: a node whose value is `NULL` is taken not to have it looked at.
-- - `create_set` makes its tables and its scope anew, and leaves the heap and the parameters of the last function.
-- - A routine ends with a result (`ok`), with `SEMANTIC_ERROR` or `NULL` (`error`), both with the state
--   that it leaves, or with a failed assertion, a `PANIC` or a bad pointer (`fault`).
-- - The status codes that the code drops, tests or passes on are dropped, tested or passed on.
-- - A scale, a `double` that is always a power of two, is its exponent plus 1075.
-- - The recursion of `createExpression` is over the tree: `annotate` puts at each node the routine that
--   analyses it, and a handler runs the routines of the children it looks at, in its own order.
-- - `compareTypes` and `type_to_string` follow references with the number of cells as fuel. That is
--   enough where every reference points to an earlier type.
-- - `g_utf8_strlen` is a parameter. Diagnostics keep the format that they are printed with, without
--   the arguments; source locations and back pointers to nodes are left out, and
--   so are the log messages with what only they read (the debug messages are off by default).
-- - In Mem the state is the list of blocks in use and the table of namespaces. To free or reallocate a
--   block that is not in use, or by the wrong function, is undefined, and so `none`. What `malloc`,
--   `realloc` and the constructors of GLib answer is a parameter.
-- - In Opt a hash table is an association list, and the order of an iteration over one a parameter, as is
--   what the TOML library reads. The loops over comma-separated paths run on fuel, and no fuel is enough
--   for a value with a comma.
-- - The driver pushes files on a stack (Io), parses them and merges their modules (Ast/Children.antt); its
--   targets come from Opt. The parser, the file system, `create_set` and the back end are parameters. The
--   loop over the imports runs on fuel, and enough of it is the number of nodes of all files, and one.
-- - In Lex the answers of `fgets` are a parameter, as is `g_string_replace`; the loop of `nextChar` is over
--   the answers, and the result of `getNextLine` is whether it is 0. Numbers are not bounded. The
--   generated lexer, which asks for the characters one at a time, is left out.
-- - Llvm reads the heap of types of Set. What the LLVM library makes, and the order of the members of a
--   box, are parameters; the recursion over references is bounded by a depth, and the address of a type is
--   enough where references point to earlier types.
--
-- Not modelled: `getBoxMember`, which reads a table that is never made; `createDefMember`, which nothing
-- calls; the freeing of trees, modules and configurations; the messages of project files; and the
-- other parts of the compiler (the rules of the lexer, the grammar, logging, the code for expressions,
-- statements and functions, linking).
pub mod Prelude
pub mod Ast
pub mod Codegen
pub mod Driver
pub mod Io
pub mod Lex
pub mod Llvm
pub mod Mem
pub mod Opt
pub mod Set
