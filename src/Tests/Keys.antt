-- ===== src/Tests/Keys.antt =====
-- Runs of the functions of src/overrides.rs on keys and values like those of its tests.
use bbtidy.Base.{Option, none, some, true, List, [], ◌∷◌, ◌≡◌, refl, All, if◌then◌else◌}
use bbtidy.Text.{Text, text, text_eq}
use bbtidy.Syntax.Definitions.{split_ascii_whitespace}
use bbtidy.Overrides.Keys.{
  refused, accepted, empty_component, unclosed_expansion, empty_flag, malformed_flag, split_flag,
}
use bbtidy.Overrides.Components.{split_components}
use bbtidy.Overrides.Splitting.{joined, Filled, split_components-joined}
use bbtidy.Overrides.Segments.{Removed}
use bbtidy.Overrides.Removal.{remove_override_tokens-Removed}
use bbtidy.Overrides.References.{expand_references}
use bbtidy.Overrides.Expansion.{Expanded}
use bbtidy.Overrides.Loop.{expand_references-Expanded}
use bbtidy.Overrides.Values.{remove_override_tokens}
use bbtidy.Overrides.Flags.{FlagOf, split_flag-FlagOf}
use bbtidy.Overrides.Code.{overrides_code}

abbrev key : Text
key = text "RDEPENDS:${PN:x}:class-native"

abbrev key_parts : List Text
key_parts = text "RDEPENDS" ∷ text "${PN:x}" ∷ text "class-native" ∷ []

split-key : split_components key ≡ accepted key_parts
unfolding overrides_code
split-key = refl

split_components-joined_example : (joined key_parts ≡ key) × All Filled key_parts
split_components-joined_example = split_components-joined key key_parts split-key

nothing_between : split_components (text "A::append") ≡ refused empty_component
unfolding overrides_code
nothing_between = refl

open_reference : split_components (text "A:${B") ≡ refused unclosed_expansion
unfolding overrides_code
open_reference = refl

flagged : split_flag (text "A[doc]") ≡ accepted (text "A", some (text "doc"))
unfolding overrides_code
flagged = refl

no_flag : split_flag (text "A[]") ≡ refused empty_flag
unfolding overrides_code
no_flag = refl

open_flag : split_flag (text "A[doc") ≡ refused malformed_flag
unfolding overrides_code
open_flag = refl

removed_words : remove_override_tokens (text "a base  b") (text "base c") ≡ text "a   b"
unfolding overrides_code
removed_words = refl

remove_override_tokens-Removed_example :
    Removed
      (split_ascii_whitespace (text "base c"))
      (text "a base  b")
      (remove_override_tokens (text "a base  b") (text "base c"))
remove_override_tokens-Removed_example =
    remove_override_tokens-Removed (text "a base  b") (text "base c")

package_values : Text → Option Text
unfolding text_eq
package_values name = if text_eq name (text "PN") then some (text "demo") else none

expanded_name :
    expand_references package_values (text "${PN}-x ${PV}")
    ≡ record { output = text "demo-x ${PV}"; dynamic = true }
unfolding overrides_code package_values
expanded_name = refl

expand_references-Expanded_example :
    Expanded package_values
      (text "${PN}-x ${PV}")
      (expand_references package_values (text "${PN}-x ${PV}"))
expand_references-Expanded_example =
    expand_references-Expanded package_values (text "${PN}-x ${PV}")

split_flag-FlagOf_example : FlagOf (text "A[doc]") (split_flag (text "A[doc]"))
split_flag-FlagOf_example = split_flag-FlagOf (text "A[doc]")
