-- ===== src/Api/Preconditions/Tests.antt =====
-- Entity tags, written and read.
use aipy.Prelude.{refl, none, some, ◌≡◌}
use aipy.Api.Errors.{ok}
use aipy.Api.Preconditions.{etag, parse_expected_version}
use aipy.Api.Preconditions.Etags.{parse_expected_version-etag}

code_test : etag "CR-20260101-001" 12 ≡ "\"CR-20260101-001-v12\""
unfolding etag
code_test = refl

read_test : parse_expected_version (some "W/\"CR-20260101-001-v12\"") ≡ ok (some 12)
unfolding parse_expected_version
read_test = refl

star_test : parse_expected_version (some " * ") ≡ ok none
unfolding parse_expected_version
star_test = refl

parse_expected_version-etag_example :
    parse_expected_version (some (etag "\"CR-v7\"" 12)) ≡ ok (some 12)
parse_expected_version-etag_example = parse_expected_version-etag "\"CR-v7\"" 12
