-- ===== src/Tests/Formatting.antt =====
-- Runs of the formatter on inputs of the tests in src/formatter.rs.
use bbtidy.Base.{◌≡◌, refl}
use bbtidy.Text.{text}
use bbtidy.Syntax.Result.{ok}
use bbtidy.Formatter.Options.{FormatOptions, one_per_line}
use bbtidy.Formatter.Output.{format, format_with_options}
use bbtidy.Formatter.Code.{formatter_code}

abbrev lists : FormatOptions
lists = record { max_top_level_blank_lines = 1; metadata_list_layout = one_per_line }

headers :
    format (
      text
        "inherit\t  autotools  pkgconfig # keep  spacing\ninherit_defer   ${VARNAME} \\\n\tsecond\nexport   CC\n")
    ≡ ok (
        text
          "inherit autotools  pkgconfig # keep  spacing\ninherit_defer ${VARNAME} \\\n\tsecond\nexport CC\n")
unfolding formatter_code
headers = refl

blank_lines :
    format (
      text
        "inherit   base\n\n\ndo_example() {\n\n\n    echo unchanged\n}\n\n\nrequire   example.inc\n")
    ≡ ok (text "inherit base\n\ndo_example() {\n\n\n    echo unchanged\n}\n\nrequire example.inc\n")
unfolding formatter_code
blank_lines = refl

metadata_lists :
    format_with_options
      (text
        "SRC_URI  =  \" \\\n\tfile://one.patch \\\n      file://two.patch \\\n      \" # keep\nDEPENDS= \"a \\\n  b \\\n c\"\nRDEPENDS:${PN} = 'runtime-a   runtime-b'\n")
      lists
    ≡ ok (
        text
          "SRC_URI = \" \\\n    file://one.patch \\\n    file://two.patch \\\n    \" # keep\nDEPENDS = \" \\\n    a \\\n    b \\\n    c \\\n    \"\nRDEPENDS:${PN} = ' \\\n    runtime-a \\\n    runtime-b \\\n    '\n")
unfolding formatter_code
metadata_lists = refl

directive_lists :
    format_with_options
      (text "inherit   \\\n  autotools \\\n pkgconfig\ninherit autotools pkgconfig\n")
      lists
    ≡ ok (
        text
          "inherit \\\n    autotools \\\n    pkgconfig\ninherit \\\n    autotools \\\n    pkgconfig\n")
unfolding formatter_code
directive_lists = refl
