-- ===== src/Lib.antt =====
-- Verification of the C programs of the embtoolkit repository that carry logic of their own: the
-- expressions of the configuration language and the configuration files (scripts/kconfig), which
-- decide what a build contains, fixdep (scripts/basic/fixdep.c), which turns the compiler's
-- dependencies into dependencies on single options, and unifdef (scripts/unifdef.c), which removes
-- #if groups from headers.
--
-- Base: shared names, Boolean tests, C texts as lists of character codes, optional results.
-- Kconfig.Tristate: `tristate` and EXPR_OR, EXPR_AND, EXPR_NOT (scripts/kconfig/expr.h).
-- Kconfig.Symbol: `struct symbol` as expressions read it, and sym_get_string_value
--   (scripts/kconfig/symbol.c). A symbol is an address; `Symbols` holds what parsing fixes, and
--   `Values` what sym_calc_value leaves in `curr`. `IsCalculated` states what that function ensures.
-- Kconfig.Expr: `struct expr`, its allocation and value (scripts/kconfig/expr.c), with Yn
--   (expr_eliminate_yn, expr_trans_bool), Transform (expr_transform), Eq (expr_eq and
--   expr_eliminate_eq), Join (expr_join_or, expr_join_and), Extract (expr_extract_eq and its two
--   callers) and Compare (expr_trans_compare, and what expr_depends_symbol means).
--
-- Kconfig.Calc: the limits and the value of a boolean or tristate symbol (sym_calc_visibility and the
--   case of sym_calc_value in scripts/kconfig/symbol.c), where the symbols of its expressions have
--   their values, with Cases on its steps, Bounds on the result and Range on
--   sym_tristate_within_range. An `Entry` is what parsing and the user leave in a `struct symbol`.
-- Kconfig.Choice: sym_choice_default and sym_calc_choice, where the visibility of the values of the
--   choice has been calculated, with Visible on the symbol that is selected.
-- Kconfig.Toggle: sym_set_tristate_value and sym_toggle_tristate_value, on the fields that they read
--   and change, with Reached on the values a user gets to. The symbol's limits do not change between
--   the rounds; three rounds are the bound of the loop, and are enough.
-- Kconfig.Print: expr_compare_type and expr_print, whose calls of `fn` are a list, with Scan on bare
--   operators in a text and Binding on the text that is printed.
-- Kconfig.Text: sym_string_valid.
-- Kconfig.Confdata: the lines of .config (scripts/kconfig/confdata.c). Escape is
--   sym_escape_string_value and the loop of conf_set_sym_val that undoes it; Line is what
--   conf_read_simple makes of a line, and kconfig_print_symbol under conf_write_symbol; Store is
--   conf_set_sym_val and the loop of conf_read_simple on the symbols and choices, for S_DEF_USER;
--   Statement, RoundTrip and File lead to the round trip of the lines of a file; Comment is
--   compat_getline and kconfig_print_comment, and Whole the round trip of a text. CONFIG_ is the default
--   prefix. A symbol has one `Slot`, its `def[S_DEF_USER]` with its type and flag.
-- Fixdep: scripts/basic/fixdep.c. Words is parse_config_file, as the list of the words it calls
--   use_config with (Bytes compares it with a search at every byte); Set is the hash table and
--   use_config (Once: the table is a set); Depfile is parse_dep_file and do_config_file, where the
--   contents of the files are an argument (Rule: the rule that the compiler writes; Output: what is
--   written for it; Missing: a file that cannot be opened). A copy that leaves its buffer is the
--   outcome `overrun`. Characters are ASCII; a map has no 0 and mmap succeeds.
-- Unifdef: the line types, the states and the transition table, with Machine (the globals, the
--   transition functions, flushline and process), Depth (nesting: Table says what each function
--   needs and Reached that it is given) and Numbers (the newlines of the output: Flushed shows that
--   each function writes one line, Kept follows the options -n and -b). There the types of the lines
--   are an argument; `keyword` divides the text of a line in two. A call that ends the program is a
--   value of `Outcome`. A `line_number` stands for what printf writes to standard output, a `text` for
--   what goes to `output`; the two are one stream only without -o. The ints of the state are natural
--   numbers: files have fewer than 2^31 lines. Comment
--   is skipcomment (on fuel: two rounds a character and one more are enough), with Stops on where it
--   stops. Groups has well nested input as a data type, and what resolving its known
--   conditions leaves; Moves, Reach and Lines are one line, several, and the first and last of a
--   group, Output all of them, for the options that main starts with; Compiled says what a compiler
--   keeps, and Resolved is about a whole input.
-- Unifdef.Symbols, Unifdef.Numerals: the symbol table (findsym, addsym) and strtol of the C library,
--   for the base 0 and a long of 64 bits that is stored in an int of 32 bits; an int is its residue.
-- Unifdef.Evaluator: eval_unary, eval_table and ifeval, with Operations (the operators and their
--   table), Skip (skipcomment between tokens), Syntax (the grammar by rows of operators, how
--   expressions are printed, what unifdef knows of their values and what a compiler does), Values (the
--   operators on what is known), Reads and Names (innermost parts), Operators (the search in a row),
--   Levels and Expressions (whole expressions) and Ifeval; Total, Innermost and Ends are about every
--   text. A result carries the text that is left and the globals; an int that the source has not set
--   is 0.
-- Unifdef.Main: the command line, from the options that getopt gives to the files and the call of
--   process, with Symbols (addsym and what findsym finds after it), Requests (a command line as a data
--   type, and what it asks for), Steps (one option) and Starts (all of them). How files open, whether
--   two are one, and mkstemp are parameters. Closeout is the end of the program, with the files before
--   and after it; fputs, fclose, rename and unlink are parameters. Whole joins all of it for a file that is
--   edited in place.
-- Unifdef.Parseline, Unifdef.Run: parseline on the text that is left of the file, with Steps (fgets and
--   the types of lines), and process with it, to the end of the program; a text holds no 0. Quiet says
--   which lines ignore no text; Follows leads from a text to its lines; Lines, Directives and Plain are parseline on one line; Program has files as a data type, with
--   the expressions of their directives; Parsing and Whole are about a whole file, and Advances and Ends
--   about every text.
--
-- The source rewrites trees in place, through pointers to the parents' fields. Where two pointers
-- lead into different trees, the model returns the new trees. Freed nodes and the counter
-- `trans_count`, which expr_eq restores, have no counterpart.
--
-- Fuel: expr_transform takes fuel for the depth of its calls; twice the height of the expression is
-- enough. expr_eq and expr_eliminate_eq call each other on copies; four calls a node and two more
-- are enough. The loop of fixdep over the prerequisites takes the length of the map. The evaluator of
-- unifdef takes six calls for a character and six more, and the driver one line for a character and
-- one more, on every text. With less fuel the functions return `none` (in fixdep `overrun`, in unifdef
-- `out_of_fuel`, `stuck` or `unfinished`), and the theorems prove that the fuel named there suffices.
--
-- Not modelled: the recursion of sym_calc_value over the symbols, and the flags that mark changes;
-- the lists of symbols that unifdef prints of a file (-s, -S), and its messages (-d);
-- the user interfaces, and the Make rules of the packages.
pub mod Base
pub mod Kconfig
pub mod Unifdef
pub mod Fixdep
