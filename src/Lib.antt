-- ===== src/Lib.antt =====
-- bbtidy formats and lints BitBake metadata. This library models its parser, its formatter, the
-- transaction by which it writes files, the resolution of overrides, the engine and some rules of
-- the linter, and the search for dependency cycles. The results at the end of this comment say what
-- is proved of each part.
--
-- Parts, and where they are modelled:
-- - Text: `&str` as the list of its UTF-8 bytes with the operations of Rust's standard library that
--   the sources call. Offsets are byte offsets. Unicode white space, which `trim` and
--   `char::is_whitespace` test, is recognised by its encodings. Slices are total here: a range
--   outside the text is cut, where Rust would panic. Text.Scan is the shape of the scanning loops,
--   `while index < bytes.len()`: one round is a function of the index, the bytes from there on and
--   the loop variables, and it stops or goes on behind some bytes. The recursion is on the bytes
--   left, so no loop needs fuel.
-- - Scanner: the scanners of src/lib.rs. Lines (line ends, continuations), Quotes (comments and
--   quotes), Operators (`find_assignment_operator`), Names (`is_variable_name`), Shell (expressions,
--   substitutions, here-documents), Braces (`find_brace_block_end`), Python (`python_def_header`,
--   `find_python_def_end`), Functions (`function_opening_brace`; the modifiers before a name are
--   taken off with the length of the declaration as fuel, and each round takes a keyword off).
--   Bounds proves where they stop, Longest which operator is found.
-- - Syntax: src/syntax.rs. Tree (the node types), Result (`FormatError`, with the panics of `expect`
--   as a failure of their own), Statement (`classify_statement`, assignments, directives),
--   Definitions (functions, Python definitions), Parse (`parse`, a scan whose rounds are nodes).
--   Advance, Located, Lossless, Ranges and Assignments hold the proofs.
-- - Formatter: src/formatter.rs and `format` of src/lib.rs. Options (layouts, lines), Values and
--   Directives (static lists), Output (the text that is written for each node), Verbatim (what
--   of the source stands in it).
-- - Overrides: src/overrides.rs. Keys (operations, `split_flag`), Components (`split_components`),
--   References (`expand_references`; the map of known values is a function), Values
--   (`apply_assignment_operator`, `remove_override_tokens`), Legacy (underscore operations and
--   suffixes; the loop over suffixes has the length of the name as fuel, and each round shortens
--   it), ParseKey (`parse_key`), Static (`resolve_static_environment`, whose rounds are bounded by
--   the source itself, `static_value`, `override_tokens`), Rank (`override_rank`), Resolve (variants,
--   entries and `resolve_with_active_overrides`). Flags, Splitting, Segments, Removal, Expansion,
--   Loop, Suffixes, Tokens, Precedence, Selected and Grouping hold the proofs. An ordered map or set
--   is a list in the order of its keys (Text.Maps, Text.MapLaws).
-- - Lint: src/lint.rs. Rules (the table of rules, severities, profiles), Names (their `FromStr` and
--   `Display`), Options (`LintOptions`, `LintDiagnostic`, and `get_line_col` of src/lib.rs),
--   Suppression (the directives in comments), Finalize (`finalize_diagnostics`), Lines
--   (`check_trailing_whitespace`, `check_final_newline`), Nodes (`check_duplicate_functions`,
--   `check_empty_directives`), Assignments (`check_autorev`), Fixes (`apply_lint_fixes`, which takes
--   the fixes of the diagnostics as a list). Profiles, Directives, Summary, Reported, Findings,
--   Outcome, Splice, Boundaries, LineParts, Trimmed, Repeated and Autorev hold the proofs.
-- - Body: src/body.rs. Diagnostics (`sort_body_diagnostics`), Shell (the blocks of
--   `analyze_shell_body`; its tokens are the argument), Python (`analyze_python_tokens`). Phases
--   and Words say where a reserved word may stand and what it means there; Outer, Meanings, Nesting
--   and Located hold the proofs.
-- - Workspace: src/workspace.rs. Cycle (`dependency_cycle_for` over the graph of dependencies; paths,
--   their equality and `canonicalize_for_lookup` are parameters; the search has one round more than
--   the graph has edge targets and the start, and no node is put in the queue twice). Walks, Found
--   and Search hold the proofs.
-- - Transaction: src/transaction.rs. Disk (the trait `CommitFilesystem` and the functions of
--   `std::fs`, a parameter, with the documented effects as laws), Commit (`commit_with`,
--   `rollback`, the drops), Items, Rollback and Atomic (the proofs).
--
-- The parser reads a source with the scanners, the formatter writes the nodes of the parser, and the
-- transaction writes what the formatter returns. The override resolution reads the assignments of
-- the parser's nodes. The lint engine marks and orders the findings of its rules by the directives
-- of the source, and writes their fixes into it.
--
-- Not modelled: the lexer that logos generates from `Token`, which no other part uses; the parts
-- that run BitBake or walk directories (src/bitbake.rs, src/semantic.rs, src/project.rs, most of
-- src/workspace.rs), since they are input and output; the command line (src/main.rs); the staging
-- of a transaction; the rules of src/lint.rs other than those of Lines, Nodes and Assignments; the
-- shell lexer, the indentation and the compound statements of src/body.rs; and src/config.rs.
mod Base
pub mod Text
pub mod Scanner
pub mod Syntax
pub mod Formatter
pub mod Overrides
pub mod Lint
pub mod Body
pub mod Workspace
pub mod Transaction
mod Tests
