-- ===== src/Lib.antt =====
-- A model of the Tiger compiler (tc), with the theorems that make it correct.
--
-- The compiler is a chain of passes over one abstract syntax tree, which they annotate in place.
-- A node is known by its address, and a pass is a function of the tree and of an explicit state;
-- what a pass writes on nodes is kept in that state, by address. Exceptions, null pointers that
-- are followed, and containers that are popped when empty, are the result `none`.
--
-- - Prelude: names that the modules share, and `std::to_string` (Prelude/Decimal).
-- - Misc: lib/misc. ScopedMap is the stack of dictionaries of scoped-map.hh, Indent the levels of
--   indentation of indent.cc, Symbol the unique strings of unique.hxx and symbol.cc, Escape the
--   escapes of escape.cc, Timer the nested tasks of timer.cc, with readings of the clock as
--   arguments.
-- - Ast: src/ast. Syntax has the nodes, Visitor the dispatch of `accept`, Default the visitor of
--   src/ast/default-visitor.hxx, Laws and Related the induction over a tree for two visitors,
--   Summary, Overrides and Addresses the case of a pass beside a visitor that collects a value.
--   The constructs of the object extension and the metavariables are left out.
-- - Bind: src/bind. State and Binder model src/bind/binder.cc, one definition for each
--   `operator()`; Scoping states the rules of scope with environments, without stacks; Frames and
--   Correct relate the two; Mains counts the functions `_main` of a program, Outcome is about `break`
--   and src/bind/libbind.cc; Renamer models src/bind/renamer.cc: Steps has a walk as a sequence of
--   steps, Names the names in the end, Laws what a walk does not change.
-- - Escapes: src/escapes/escapes-visitor.cc; Marks has what a tree does to variables,
--   without a stack, and Follows that the visitor does this.
-- - Types: src/type. Heap has the objects of the class `Type` by address, Chains the chains of
--   pointers through a bounded heap, Named src/type/named.cc, Compatible the `compatible_with` of
--   every class, Checker src/type/type-checker.cc: State its members and checks, Access, Exps and
--   Decs one definition for each `operator()`, Walk the visitor; the other modules of Checker show
--   what a check keeps.
--   Classes models src/type/class.cc on a heap of its own; Ancestors, Roots and Common are about the
--   loops over super classes.
-- - Tasks: src/task. Tasks itself has the classes of tasks and their construction (task.cc), Names
--   the text that lists dependencies, Numbers and Arguments the options with an integer
--   (int-task.cc), Register the `TaskRegister` of task-register.cc, whose modules Order, Steps,
--   Acyclic and Cyclic are about `task_order_`, Execute and Print the execution, with its timer, and
--   what is printed. The notifiers of the command line are those of options whose arguments are
--   accepted; what a refused argument throws is in Arguments.
-- - Printer: src/ast/pretty-printer.cc, as a visitor over a stream; Actions has what its operations
--   are made of, Kept and Balanced are about the level of indentation.
-- - Dumper: src/ast/dumper-dot.cc and dumper-dot.hxx, as a visitor over a stream and the members of
--   a `DumperDot`. Html has the tables of the nodes, Links the edges and the visits of children,
--   Escape the escapes of labels; Kept, Parts, Children and Balanced are about what an action keeps.
-- - Collector: src/llvmtranslate/escapes-collector.cc, as a visitor over its members. Grows has what
--   a visit keeps of the sets of variables, Runs the operations, Ends the whole program.
-- - Runtime: src/llvmtranslate/runtime.cc, which holds the runtime of compiled programs in LLVM's
--   assembly, as it is made of tiger-runtime.c. Machine has words of 32 bits, a memory of objects
--   with bounds, and the outcomes, among them the undefined ones; `strlen`, `strcmp` and `malloc` are
--   parameters. Texts, Words and Allocate are about what is in memory, Copy, Consts, Chars, Concat,
--   Substring and Arrays about the loops and the functions.
-- - Parse: src/parse/scantiger.ll. Strings has the rules for string literals, with fuel for the
--   characters of the literal; Escapes relates them to Misc/Escape.
-- - Clone: src/astclone. Clone itself has the operations of cloner.cc, Nodes the state and the parts
--   of an operation (cloner.hxx), Strip the trees without addresses; Parts, Types, Lists and Same
--   compare the clone with the tree.
-- - Tests: runs on small programs, and the theorems at concrete inputs.
--
-- Bounds and fuel: the chains of named types are followed with one more step than the heap has
-- objects; a chain that ends has no more links than objects, so that this is enough, and so it is
-- with the super classes of a class and two more steps. A task is enabled with fuel for the depth of
-- its dependencies; any rank of the tasks by their dependencies bounds it, and on a cycle no fuel is
-- enough, as the recursion of the source has no end there. Counters and addresses do not wrap; the
-- `int` of an option and the counter of fresh symbols do. The scanner's literals are not negative.
-- The loops of the runtime have one round of fuel more than they copy or fill; a program whose loop
-- ran out of it would have an outcome of its own, which the results exclude. A loop of the collector
-- needs two rounds more than there are pairs of a function and a variable.
--
-- Not modelled: the rest of src/parse, whose scanner and parser are generated; src/desugar, which
-- builds its trees by that parser; src/object; Boost's reading of the command line; what the
-- timer prints; the printer of src/type; the rest of src/llvmtranslate, which calls LLVM, and the
-- functions of the runtime that only print, flush or exit; the rest of lib/misc; tcsh.
pub mod Prelude
pub mod Misc
pub mod Ast
pub mod Bind
pub mod Collector
pub mod Dumper
pub mod Escapes
pub mod Types
pub mod Runtime
pub mod Tasks
pub mod Printer
pub mod Parse
pub mod Clone
pub mod Tests
