-- ===== src/Tests/Driver.antt =====
-- Endpoints, versions and the answers of the identity service.
use csi_hostpath.Base.{
  arith, ◌≡◌, ◌≢◌, ◌↔◌, refl, none, [], ◌++◌, Text, text, ok, panic, list_eq, nat_eq, list_beq,
  has_prefix, to_lower, lower,
}
use csi_hostpath.Driver.Endpoint.{
  parse_endpoint, separator, IsAscii, IsScheme, split_in_two, parse_endpoint_lem,
}
use csi_hostpath.Driver.Version.{Build, get_version_details, get_git_commit}

abbrev unix : Text
unfolding text
unix = text "UNIX"

abbrev address : Text
unfolding text
address = text "/csi/csi.sock"

abbrev endpoint : Text
unfolding text
endpoint = text "UNIX:///csi/csi.sock"

-- The proto keeps its case.
parse_endpoint_test : parse_endpoint endpoint ≡ ok (unix, address)
unfolding parse_endpoint has_prefix to_lower lower split_in_two text list_beq endpoint
parse_endpoint_test = refl

endpoint-IsAscii : IsAscii endpoint
unfolding text
endpoint-IsAscii = omega arith

parse_endpoint_lem_example :
    (parse_endpoint endpoint ≢ panic)
    × ((parse_endpoint endpoint ≡ ok (unix, address))
        ↔ ((endpoint ≡ unix ++ separator ++ address) × (address ≢ []) × IsScheme unix))
parse_endpoint_lem_example = parse_endpoint_lem endpoint unix address endpoint-IsAscii

abbrev build : Build
unfolding text
build = record {
  version = [];
  version_content = text " 1.2";
  version_meta = [];
  meta_content = text "dev";
  git_commit = text "abc";
  git_output = none;
}

-- A commit of less than seven characters
get_version_details_test : get_version_details build ≡ panic
unfolding get_version_details get_git_commit text list_beq
get_version_details_test = refl
