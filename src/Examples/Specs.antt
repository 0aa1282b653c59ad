-- ===== src/Examples/Specs.antt =====
-- Status codes: a range with a wide tilde, a code inside it, and a code of its own.
use uptime_mesh.Prelude.{◌≡◌, List, [], ◌∷◌, some}
use uptime_mesh.StatusSpec.{
  Text, expand_status_specs, is_space, trim_left, trim_right, trim_space, atoi_digits,
  atoi_unsigned, up_to, atoi, cut, ends_of, split_status_range, replaced, replace_all,
  normalize_spec_text,
}
use uptime_mesh.StatusSpec.Expanded.{expand_status_specs_lem}

-- ` 401～403`, `402` and `200`
abbrev three_specs : List Text
three_specs =
    (32 ∷ 52 ∷ 48 ∷ 49 ∷ 65374 ∷ 52 ∷ 48 ∷ 51 ∷ []) ∷ (52 ∷ 48 ∷ 50 ∷ []) ∷ (50 ∷ 48 ∷ 48 ∷ []) ∷ []

expand_status_specs_lem_example :
    expand_status_specs three_specs ≡ some (200 ∷ 401 ∷ 402 ∷ 403 ∷ [])
unfolding normalize_spec_text replace_all replaced trim_space trim_left trim_right is_space
    split_status_range cut ends_of atoi atoi_unsigned atoi_digits up_to
expand_status_specs_lem_example = expand_status_specs_lem three_specs
