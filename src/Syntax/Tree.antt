-- ===== src/Syntax/Tree.antt =====
-- src/syntax.rs: the concrete syntax tree.
use bbtidy.Base.{ℕ, Option, Bool, List}
use bbtidy.Text.{Text, text}
use bbtidy.Scanner.Operators.{AssignmentOperator}

-- A half-open byte range.
pub record TextRange : Type 0 where
  pub start : ℕ
  pub end : ℕ

abbrev pub range : ℕ → ℕ → TextRange
range a b = record { start = a; end = b }

pub record AssignmentSyntax : Type 0 where
  pub name : Text
  pub name_range : TextRange
  pub operator : AssignmentOperator
  pub operator_range : TextRange
  pub value : Text
  pub value_range : TextRange
  pub exported : Bool
  pub continued : Bool

pub data DirectiveKeyword : Type 0 where
  include include_all require inherit inherit_defer add_fragments add_py_lib : DirectiveKeyword
  add_handler add_task del_task export_functions export unset : DirectiveKeyword

-- `DirectiveKeyword::lexeme`
abbrev pub keyword_lexeme : DirectiveKeyword → Text
keyword_lexeme include = text "include"
keyword_lexeme include_all = text "include_all"
keyword_lexeme require = text "require"
keyword_lexeme inherit = text "inherit"
keyword_lexeme inherit_defer = text "inherit_defer"
keyword_lexeme add_fragments = text "addfragments"
keyword_lexeme add_py_lib = text "addpylib"
keyword_lexeme add_handler = text "addhandler"
keyword_lexeme add_task = text "addtask"
keyword_lexeme del_task = text "deltask"
keyword_lexeme export_functions = text "EXPORT_FUNCTIONS"
keyword_lexeme export = text "export"
keyword_lexeme unset = text "unset"

pub record DirectiveSyntax : Type 0 where
  pub keyword : DirectiveKeyword
  pub keyword_range : TextRange
  pub arguments : Text
  pub arguments_range : TextRange
  pub continued : Bool

pub data FunctionKind : Type 0 where
  shell python : FunctionKind

pub record FunctionSyntax : Type 0 where
  pub kind : FunctionKind
  pub name : Option Text
  pub name_range : Option TextRange
  pub body_range : TextRange
  pub fakeroot : Bool

pub record PythonDefinitionSyntax : Type 0 where
  pub name : Text
  pub name_range : TextRange
  pub body_range : TextRange

pub data SyntaxKind : Type 0 where
  blank comment unknown : SyntaxKind
  assignment : AssignmentSyntax → SyntaxKind
  directive : DirectiveSyntax → SyntaxKind
  function : FunctionSyntax → SyntaxKind
  python_definition : PythonDefinitionSyntax → SyntaxKind

pub record SyntaxNode : Type 0 where
  pub kind : SyntaxKind
  pub range : TextRange
  pub contents : Text

pub record SyntaxTree : Type 0 where
  pub source : Text
  pub nodes : List SyntaxNode
