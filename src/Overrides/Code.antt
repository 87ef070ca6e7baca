-- ===== src/Overrides/Code.antt =====
-- Opens the functions of src/overrides.rs where one is run on an input.
use bbtidy.Text.{
  strip_prefix, strip_suffix, text_eq, find, find_byte, white_len, is_ascii_whitespace,
}
use bbtidy.Text.Scan.{scan}
use bbtidy.Syntax.Definitions.{ascii_words}
use bbtidy.Overrides.Keys.{split_flag, operation_for}
use bbtidy.Overrides.Components.{component_step, components_end, split_components}
use bbtidy.Overrides.References.{expand_name, reference_step, expand_references}
use bbtidy.Overrides.Values.{
  apply_assignment_operator, kept_token, flush, token_step, remove_override_tokens,
}
use bbtidy.Base.Sorting.{insert_sorted, sort_by}
use bbtidy.Text.{trim_by, trim_start, trim_end, white_len_back}
use bbtidy.Text.Maps.{get, update, lex_lt, list_eq}
use bbtidy.Overrides.Legacy.{
  inside_reference, marker_step, find_marker, remove_legacy_operation, legacy_suffixes,
  longest_component, longest_legacy_suffix, legacy_components,
}
use bbtidy.Overrides.ParseKey.{modern_parts, expand_components, modern_key, legacy_key, parse_key}
use bbtidy.Overrides.Static.{
  collect_from, collect_assignments, join_lines, unquoted_value, static_value, apply_static,
  static_round, static_rounds, resolve_static_environment, tokens_from, override_tokens,
}
use bbtidy.Overrides.Rank.{position, positions, override_rank, max_from, max_by}
use bbtidy.Overrides.Resolve.{
  apply_operation, apply_entries, apply_operations, override_list_step, override_list_from,
  resolve_override_list, keep_entries, apply_assignments, add_entry, add_variants, base_value,
  variant_candidates, resolve_direct_entries, resolved_entry, group_entries, resolve_entries,
  join_overrides, ordered_set, resolve_with_active_overrides, resolve_overrides,
}

unfoldable pub overrides_code : Unit {0}
unfolding strip_prefix strip_suffix text_eq find find_byte white_len is_ascii_whitespace scan
    ascii_words split_flag operation_for component_step components_end split_components expand_name
    reference_step expand_references apply_assignment_operator kept_token flush token_step
    remove_override_tokens
overrides_code = tt

unfoldable pub resolution_code : Unit {0}
unfolding overrides_code insert_sorted sort_by trim_by trim_start trim_end white_len_back get update
    lex_lt list_eq inside_reference marker_step find_marker remove_legacy_operation legacy_suffixes
    longest_component longest_legacy_suffix legacy_components modern_parts expand_components
    modern_key legacy_key parse_key collect_from collect_assignments join_lines unquoted_value
    static_value apply_static static_round static_rounds resolve_static_environment tokens_from
    override_tokens position positions override_rank max_from max_by apply_operation apply_entries
    apply_operations override_list_step override_list_from resolve_override_list keep_entries
    apply_assignments add_entry add_variants base_value variant_candidates resolve_direct_entries
    resolved_entry group_entries resolve_entries join_overrides ordered_set
    resolve_with_active_overrides resolve_overrides
resolution_code = tt
