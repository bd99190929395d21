-- ===== src/Driver/Version.antt =====
-- pkg/version/version.go: the version of a build. The variables that the compiler fills in, the embedded
-- files and the answer of git are the fields of `Build`.
use csi_hostpath.Base.{
  ℕ, Bool, ◌||◌, Option, none, some, [], ◌∷◌, ◌++◌, Text, text, Outcome, ok, err, panic, ◌==◌,
  list_eq, nat_eq, if◌then◌else◌, length, take, ltb,
}

pub record Build : Type 0 where
  pub version : Text
  pub version_content : Text
  pub version_meta : Text
  pub meta_content : Text
  pub git_commit : Text
  pub git_output : Option Text

-- The ASCII blanks of `strings.TrimSpace`
abbrev is_space : ℕ → Bool
is_space c = c == 32 || c == 9 || c == 10 || c == 11 || c == 12 || c == 13

unfoldable pub trim_left : Text → Text
trim_left [] = []
trim_left (c ∷ s) = let rest = trim_left s in if is_space c then rest else c ∷ s

abbrev cons_trimmed : ℕ → Text → Text
cons_trimmed c [] = if is_space c then [] else c ∷ []
cons_trimmed c (d ∷ s) = c ∷ d ∷ s

unfoldable pub trim_right : Text → Text
trim_right [] = []
trim_right (c ∷ s) = cons_trimmed c (trim_right s)

abbrev pub trim_space : Text → Text
unfolding trim_left trim_right
trim_space s = trim_right (trim_left s)

-- `Get`, which is also `Current`
unfoldable pub current : Build → Text
unfolding trim_space
current b = if b.version == [] then trim_space b.version_content else b.version

-- `GetBuildMeta`
unfoldable pub get_build_meta : Build → Text
unfolding trim_space text
get_build_meta b =
    if b.version_meta == []
    then text "-" ++ trim_space b.meta_content
    else text "-" ++ b.version_meta

-- `GetGitCommit`
abbrev trimmed : Option Text → Text
unfolding trim_space
trimmed none = []
trimmed (some out) = trim_space out

unfoldable pub get_git_commit : Build → Text
unfolding trimmed
get_git_commit b = if b.git_commit == [] then trimmed b.git_output else b.git_commit

-- `s[0:7]`
abbrev pub first_seven : Text → Outcome Text Text
first_seven s = if ltb (length s) 7 then panic else ok (take 7 s)

abbrev pub join_version : Text → Outcome Text Text → Outcome Text Text
unfolding text
join_version prefix (ok commit) = ok (prefix ++ text "-" ++ commit)
join_version prefix (err e) = err e
join_version prefix panic = panic

-- `Verbose`
unfoldable pub verbose : Build → Outcome Text Text
unfolding current get_git_commit join_version
verbose b = join_version (current b) (first_seven (get_git_commit b))

-- `GetVersionDetails`
unfoldable pub get_version_details : Build → Outcome Text Text
unfolding current get_git_commit join_version text
get_version_details b =
    join_version (text "hostpath-" ++ current b) (first_seven (get_git_commit b))
